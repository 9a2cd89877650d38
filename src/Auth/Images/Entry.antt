-- ===== src/Auth/Images/Entry.antt =====
-- An entry of the list of servers as the client reads it.
use priston_tale_eu.Prelude.{
  ℕ, zero, suc, ◌+◌, ◌*◌, ◌<◌, ◌≡◌, refl, ap, subst, ◌∙◌, List, [], ◌++◌, arith, length, drop, ltb,
  ok, out_of_bounds, require, >>=-eq-ok, ok-injective, append_assoc, drop-append_add,
}
use priston_tale_eu.Common.Layout.{offset_of}
use priston_tale_eu.Auth.Packets.{text_field, server_bytes}
use priston_tale_eu.Auth.Structures.{server}
use priston_tale_eu.Auth.Session.{Realm, Server}
use priston_tale_eu.Auth.Handlers.{c_string, le32_at, server_entry, default_world_port}
use priston_tale_eu.Auth.ServerList.{text_field-length}
use priston_tale_eu.Auth.Images.Text.{NoZero, c_string-text_field}

module _ (answers : Server) where
  -- What a client reads of an entry: the name, the address with index `j` and the port with index `p`.
  abbrev pub Reads : List ℕ → Realm → ℕ → ℕ → Type 0
  Reads entry realm j p =
      (c_string (drop (offset_of server 0) entry) ≡ ok realm.realm_name)
      × (c_string (drop (offset_of server 1 + j * 20) entry) ≡ ok realm.ip_address)
      × (le32_at (drop (offset_of server 2 + p * 4) entry) 0 ≡ default_world_port)

  some_address :
      (ip more : List ℕ) (j : ℕ)
      → length ip ≡ 20
      → j < 3
      → (after : List ℕ) × (drop (j * 20) (ip ++ (ip ++ (ip ++ more))) ≡ ip ++ after)
  some_address ip more zero h low = (ip ++ (ip ++ more), refl)
  some_address ip more (suc zero) h low =
      (ip ++ more, drop-append_add 20 0 ip (ip ++ (ip ++ more)) (omega (arith, h)))
  some_address ip more (suc (suc zero)) h low = (
    more,
    drop-append_add 40 20 ip (ip ++ (ip ++ more)) (omega (arith, h))
        ∙ drop-append_add 20 0 ip (ip ++ more) (omega (arith, h)),
  )
  some_address ip more (suc (suc (suc j))) h low = absurd (omega (arith, low))

  some_port :
      (more : List ℕ) (j : ℕ)
      → j < 4
      → le32_at (drop (j * 4) (server_bytes [] [] default_world_port ++ more)) 0
        ≡ default_world_port
  some_port more zero low = refl
  some_port more (suc zero) low = refl
  some_port more (suc (suc zero)) low = refl
  some_port more (suc (suc (suc zero))) low = refl
  some_port more (suc (suc (suc (suc j)))) low = absurd (omega (arith, low))

  server_bytes-Reads :
      (realm : Realm) (name ip more : List ℕ) (j p : ℕ)
      → text_field answers.junk 32 realm.realm_name ≡ ok name
      → text_field answers.junk 20 realm.ip_address ≡ ok ip
      → NoZero realm.realm_name
      → NoZero realm.ip_address
      → j < 3
      → p < 4
      → Reads (server_bytes name ip default_world_port ++ more) realm j p
  server_bytes-Reads realm name ip more j p n a clean plain low few =
      let size = text_field-length answers 32 realm.realm_name name n in
      let width = text_field-length answers 20 realm.ip_address ip a in
      let ports = server_bytes [] [] default_world_port in
      let addresses = ip ++ (ip ++ (ip ++ ports)) in
      let split = append_assoc name addresses more in
      let inner : addresses ++ more ≡ ip ++ (ip ++ (ip ++ (ports ++ more))) =
        append_assoc ip (ip ++ (ip ++ ports)) more
        ∙ ap (λ (xs : List ℕ). ip ++ xs)
            (append_assoc ip (ip ++ ports) more
              ∙ ap (λ (xs : List ℕ). ip ++ xs) (append_assoc ip ports more)) in
      let whole = split ∙ ap (λ (xs : List ℕ). name ++ xs) inner in
      (
        ap c_string split ∙ c_string-text_field answers.junk 32 realm.realm_name name _ n clean,
        let (after, found) = some_address ip (ports ++ more) j width low in
            ap (λ (xs : List ℕ). c_string (drop (32 + j * 20) xs)) whole
            ∙ ap c_string
                (drop-append_add (32 + j * 20) (j * 20) name _ (omega (arith, size)) ∙ found)
            ∙ c_string-text_field answers.junk 20 realm.ip_address ip after a plain,
        ap (λ (xs : List ℕ). le32_at (drop (92 + p * 4) xs) 0) whole
            ∙ ap (λ (xs : List ℕ). le32_at xs 0)
                (drop-append_add (92 + p * 4) (60 + p * 4) name _ (omega (arith, size))
                  ∙ drop-append_add (60 + p * 4) (40 + p * 4) ip _ (omega (arith, width))
                  ∙ drop-append_add (40 + p * 4) (20 + p * 4) ip _ (omega (arith, width))
                  ∙ drop-append_add (20 + p * 4) (p * 4) ip (ports ++ more) (omega (arith, width)))
            ∙ some_port more p few,
      )

  pub server_entry-Reads :
      (k : ℕ) (realm : Realm) (entry more : List ℕ) (j p : ℕ)
      → server_entry answers k realm ≡ ok entry
      → NoZero realm.realm_name
      → NoZero realm.ip_address
      → j < 3
      → p < 4
      → Reads (entry ++ more) realm j p
  unfolding server_entry
  server_entry-Reads k realm entry more j p e clean plain low few =
      let (u, inside, e₁) = >>=-eq-ok (require (ltb k 4) out_of_bounds) _ e in
      let (name, n, e₂) = >>=-eq-ok (text_field answers.junk 32 realm.realm_name) _ e₁ in
      let (ip, a, e₃) = >>=-eq-ok (text_field answers.junk 20 realm.ip_address) _ e₂ in
      subst (λ (xs : List ℕ). Reads (xs ++ more) realm j p) (ok-injective e₃)
        (server_bytes-Reads realm name ip more j p n a clean plain low few)

-- ===== src/Auth/Images/Servers.antt =====
-- The list of servers as the client reads it.
use priston_tale_eu.Prelude.{
  ℕ, zero, suc, ◌+◌, ◌-◌, ◌*◌, ◌≤◌, ◌<◌, ◌≡◌, refl, sym, ap, subst, ◌∙◌, some, List, [], ◌∷◌, ◌++◌,
  arith, length, take, drop, get_elem?, ok, >>=-eq-ok, ok-injective, append_assoc, length-append,
  take-all, take-append_le, take-append_add, drop-drop, >>=-of-ok, drop-append_add, u16,
}
use priston_tale_eu.Common.Layout.{struct, offset_of}
use priston_tale_eu.Auth.Packets.{
  packet_bytes, server_list_header_bytes, le32, text_field, sizeof_server,
}
use priston_tale_eu.Auth.Structures.{packet_server_list, server}
use priston_tale_eu.Auth.Opcodes.{smsg_server_list}
use priston_tale_eu.Auth.Session.{Realm, Server}
use priston_tale_eu.Auth.Handlers.{
  list_length, server_list, server_entry, server_entries, encrypted_packet,
}
use priston_tale_eu.Auth.ServerList.{text_field-length, server_entry-length, server_entries-length}
use priston_tale_eu.Auth.Images.Text.{NoZero}
use priston_tale_eu.Auth.Images.Entry.{Reads, server_entry-Reads}

some-injective : {r t : Realm} → some r ≡ some t → r ≡ t
some-injective e = cc

module _ (answers : Server) where
  -- The entry of a realm, after those of the realms before it.
  entry_at :
      (counter : ℕ) (realms : List Realm) (entries : List ℕ) (i : ℕ) (realm : Realm)
      → counter ≤ 4
      → server_entries answers counter realms ≡ ok entries
      → get_elem? realms i ≡ some realm
      → (k : ℕ) × (entry : List ℕ) × (after : List ℕ) × (server_entry answers k realm ≡ ok entry)
        × ((more : List ℕ) → drop (i * sizeof_server) (entries ++ more) ≡ entry ++ (after ++ more))
  unfolding server_entries
  entry_at counter [] entries i realm low e at = cc
  entry_at counter (r ∷ rs) entries zero realm low e at =
      let (entry, one, e₁) = >>=-eq-ok (server_entry answers counter r) _ e in
      let (rest, all, e₂) = >>=-eq-ok (server_entries answers (u16 (counter + 1)) rs) _ e₁ in
      (
        counter,
        entry,
        rest,
        ap (server_entry answers counter) (sym (some-injective at)) ∙ one,
        λ more.
            ap (λ (xs : List ℕ). xs ++ more) (sym (ok-injective e₂)) ∙ append_assoc entry rest more,
      )
  entry_at counter (r ∷ rs) entries (suc i) realm low e at =
      let (entry, one, e₁) = >>=-eq-ok (server_entry answers counter r) _ e in
      let (rest, all, e₂) = >>=-eq-ok (server_entries answers (u16 (counter + 1)) rs) _ e₁ in
      let (inside, size) = server_entry-length answers counter r entry one in
      let (k, found, after, made, there) =
        entry_at (u16 (counter + 1)) rs rest i realm (omega (arith, inside)) all at in
      (
        k,
        found,
        after,
        made,
        λ more.
            ap (λ (xs : List ℕ). drop (suc i * sizeof_server) (xs ++ more)) (sym (ok-injective e₂))
            ∙ ap (drop (suc i * sizeof_server)) (append_assoc entry rest more)
            ∙ drop-append_add (suc i * sizeof_server) (i * sizeof_server) entry (rest ++ more)
                (omega (arith, size))
            ∙ there more,
      )

  -- What is sent of the list: the part that the realms of the database fill.
  sent-eq :
      (name entries rest : List ℕ) (time ticket count len n : ℕ)
      → length name ≡ 16
      → n ≡ 44 + length entries
      → (more : List ℕ)
      → drop 44 (
          take n (
            packet_bytes (encrypted_packet len smsg_server_list)
            ++ (server_list_header_bytes (record {
              server_name = name;
              time = time;
              ticket = ticket;
              unknown = 0;
              clan_server_index = 0;
              game_servers = count;
            })
                ++ (entries ++ rest)))
          ++ more)
        ≡ entries ++ more
  sent-eq name entries rest time ticket count len n h e more =
      let numbers = le32 time ++ (le32 ticket ++ (le32 0 ++ (le32 0 ++ le32 count))) in
      let front = packet_bytes (encrypted_packet len smsg_server_list) ++ (name ++ numbers) in
      let size : length front ≡ 44 = omega (arith, h, length-append name numbers) in
      ap (λ (xs : List ℕ). drop 44 (xs ++ more))
        (take-append_add n (length entries) front (entries ++ rest) (omega (arith, e, size))
          ∙ ap (λ (xs : List ℕ). front ++ xs)
              (take-append_le (length entries) entries rest (omega arith)
                ∙ take-all (length entries) entries (omega arith)))
      ∙ ap (drop 44) (append_assoc front entries more)
      ∙ drop-append_add 44 0 front (entries ++ more) (omega (arith, size))

  sent_entries :
      (first : Realm) (realms : List Realm) (list entries name : List ℕ)
      → text_field answers.junk 16 first.server_name ≡ ok name
      → server_entries answers 0 (first ∷ realms) ≡ ok entries
      → server_list answers first realms ≡ ok list
      → (more : List ℕ)
      → drop 44 (take (list_length answers (length (first ∷ realms))) list ++ more)
        ≡ entries ++ more
  unfolding server_list
  sent_entries first realms list entries name n all made more =
      let (few, size) =
        server_entries-length answers 0 (first ∷ realms) entries (omega arith) all in
      let count = length (first ∷ realms) in
      let same = sym (>>=-of-ok _ _ n ∙ >>=-of-ok _ _ all) ∙ made in
      ap (λ (xs : List ℕ). drop 44 (take (list_length answers count) xs ++ more))
        (sym (ok-injective same))
      ∙ sent-eq name entries (answers.junk.bytes (sizeof_server * (4 - count))) answers.unix_time
          answers.ticket count (list_length answers count) (list_length answers count)
          (text_field-length answers 16 first.server_name name n) (omega (arith, size, few)) more

  -- The client finds every realm: in what is sent of the list, whatever follows, the entry with the
  -- index of a realm of the database holds the realm's name, its address in each of the three places
  -- and the port of the world server in each of the four, all at their offsets, if name and address have no zero byte.
  pub server_list-Reads :
      (first : Realm) (realms : List Realm) (list more : List ℕ) (i : ℕ) (realm : Realm) (j p : ℕ)
      → server_list answers first realms ≡ ok list
      → get_elem? (first ∷ realms) i ≡ some realm
      → NoZero realm.realm_name
      → NoZero realm.ip_address
      → j < 3
      → p < 4
      → Reads answers
          (drop
            (offset_of packet_server_list 2 + i * (struct server).size)
            (take (list_length answers (length (first ∷ realms))) list ++ more))
          realm
          j
          p
  unfolding server_list
  server_list-Reads first realms list more i realm j p made at clean plain low few =
      let (name, n, e₂) = >>=-eq-ok (text_field answers.junk 16 first.server_name) _ made in
      let (entries, all, e₃) = >>=-eq-ok (server_entries answers 0 (first ∷ realms)) _ e₂ in
      let (k, entry, after, one, there) =
        entry_at 0 (first ∷ realms) entries i realm (omega arith) all at in
      let sent = take (list_length answers (length (first ∷ realms))) list ++ more in
      let found : drop (44 + i * sizeof_server) sent ≡ entry ++ (after ++ more) =
        sym (drop-drop 44 (i * sizeof_server) (44 + i * sizeof_server) sent refl)
        ∙ ap (drop (i * sizeof_server))
            (sent_entries first realms list entries name n all made more)
        ∙ there more in
      subst (λ (xs : List ℕ). Reads answers xs realm j p) (sym found)
        (server_entry-Reads answers k realm entry (after ++ more) j p one clean plain low few)

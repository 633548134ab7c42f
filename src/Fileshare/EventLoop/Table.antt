-- ===== src/Fileshare/EventLoop/Table.antt =====
-- The array of connections and its counters, as the loops keep them.
use networking_howto.Prelude.{
  ℕ, ◌+◌, ◌≤◌, ◌<◌, ◌≡◌, ◌≢◌, ◌^◌, Bool, true, false, update, update_self, update_ne, each, total,
  total_change, total-bound, total-part, total-all, ◌*◌, arith, refl, sym, ap, ◌∙◌, subst, u64,
  sub64, ℕ_discrete,
}
use networking_howto.Fileshare.Multiplexing.{
  FileshareConnection, TransferState, connection_empty, send_file_size, send_data_block,
  transfer_finished,
}
use networking_howto.Fileshare.Multiplexing.Transfer.{is_active}
use networking_howto.Fileshare.EventLoop.{Clients, no_clients}

abbrev pub one : Bool → ℕ
one true = 1
one false = 0

abbrev pub activity : (ℕ → FileshareConnection) → ℕ → ℕ
activity conns i = one (is_active (conns i).state)

-- The array has room for `max_conns` connections. Those that were accepted have been given a state;
-- the others are empty. `num_active` counts those whose transfer goes on.
pub record Kept (max_conns : ℕ) (c : Clients) : Type 0 where
  pub room : c.num_connected ≤ max_conns
  pub used : (i : ℕ) → i < c.num_connected → (c.conns i).state ≢ connection_empty
  pub unused : (i : ℕ) → c.num_connected ≤ i → (c.conns i).state ≡ connection_empty
  pub counted : c.num_active ≡ total max_conns (activity c.conns)

-- Every client that was accepted has been dealt with.
abbrev pub AllFinished : Clients → Type 0
AllFinished c = (i : ℕ) → i < c.num_connected → (c.conns i).state ≡ transfer_finished

one-bound : (b : Bool) → one b ≤ 1
one-bound true = omega arith
one-bound false = omega arith

idle_finished :
    (st : TransferState) → st ≢ connection_empty → one (is_active st) ≡ 0 → st ≡ transfer_finished
idle_finished connection_empty some_state idle = absurd (some_state refl)
idle_finished send_file_size some_state idle = absurd (omega (arith, idle))
idle_finished send_data_block some_state idle = absurd (omega (arith, idle))
idle_finished transfer_finished some_state idle = refl

-- Two arrays that differ at one connection.
pub record ChangedAt (i : ℕ) (c c' : Clients) : Type 0 where
  pub same_clients : c'.num_connected ≡ c.num_connected
  pub others : (j : ℕ) → j ≢ i → c'.conns j ≡ c.conns j

module _ {max_conns : ℕ} (small : max_conns < 2 ^ 64) where
  pub no_clients-Kept : Kept max_conns no_clients
  no_clients-Kept = record {
    room = omega arith;
    used = λ i l. absurd (omega (arith, l));
    unused = λ i l. refl;
    counted =
        let none_yet = total-all max_conns 0 (activity no_clients.conns) (λ i l. refl) in
        let product : max_conns * 0 ≡ 0 = grind arith in omega (arith, none_yet, product);
  }

  num_active-bound : {c : Clients} → Kept max_conns c → c.num_active ≤ max_conns
  num_active-bound {c} kept =
      let sum = kept.counted in
      let bound =
        total-bound max_conns (activity c.conns) (λ i. one-bound (is_active (c.conns i).state)) in
      omega (arith, sum, bound)

  others_of :
      {i : ℕ} {c c' : Clients} (P : TransferState → Type 0)
      → ChangedAt i c c'
      → P (c'.conns i).state
      → (u : ℕ) → (u ≢ i → P (c.conns u).state)
      → P (c'.conns u).state
  others_of {i} {c} {c'} P changed here u there = elim (ℕ_discrete u i) [
    | yes e ↦ subst (λ k. P (c'.conns k).state) (sym e) here
    | no ne ↦ subst (λ (d : FileshareConnection). P d.state) (sym (changed.others u ne)) (there ne)
  ]

  activity_change :
      {i : ℕ} {c c' : Clients}
      → Kept max_conns c
      → ChangedAt i c c'
      → i < c.num_connected
      → total max_conns (activity c'.conns) + activity c.conns i
        ≡ total max_conns (activity c.conns) + activity c'.conns i
  activity_change {i} {c} {c'} kept changed l =
      let room = kept.room in
      total_change max_conns i (activity c'.conns) (activity c.conns) (omega (arith, room, l))
        (λ u ne. ap (λ (d : FileshareConnection). one (is_active d.state)) (changed.others u ne))

  changed-Kept :
      (c c' : Clients) (i : ℕ)
      → Kept max_conns c
      → ChangedAt i c c'
      → i < c.num_connected
      → (c'.conns i).state ≢ connection_empty
      → c'.num_active ≡ total max_conns (activity c'.conns)
      → Kept max_conns c'
  changed-Kept c c' i kept changed l some_state counted =
      let same = changed.same_clients in
      record {
        room = let room = kept.room in omega (arith, same, room);
        used = λ u l'.
            others_of (λ st. st ≢ connection_empty) changed some_state u
              (λ ne. kept.used u (omega (arith, same, l')));
        unused = λ u from.
            ap (λ (d : FileshareConnection). d.state)
              (changed.others u (λ e. omega (arith, e, from, l, same)))
            ∙ kept.unused u (omega (arith, from, same));
        counted = counted;
      }

  -- A connection is changed, and its transfer goes on.
  pub put-Kept :
      (c c' : Clients) (i : ℕ)
      → Kept max_conns c
      → ChangedAt i c c'
      → i < c.num_connected
      → c'.num_active ≡ c.num_active
      → is_active (c.conns i).state ≡ true
      → is_active (c'.conns i).state ≡ true
      → Kept max_conns c'
  put-Kept c c' i kept changed l same active active' =
      let change = activity_change kept changed l in
      let before = ap one active in
      let now = ap one active' in
      let sum = kept.counted in
      changed-Kept c c' i kept changed l
        (λ e. let clash : true ≡ false = sym active' ∙ ap is_active e in cc)
        (omega (arith, change, before, now, sum, same))

  -- A transfer is over.
  pub drop-Kept :
      (c c' : Clients) (i : ℕ)
      → Kept max_conns c
      → ChangedAt i c c'
      → i < c.num_connected
      → c'.num_active ≡ sub64 c.num_active 1
      → is_active (c.conns i).state ≡ true
      → (c'.conns i).state ≡ transfer_finished
      → Kept max_conns c'
  drop-Kept c c' i kept changed l less active over =
      let change = activity_change kept changed l in
      let before = ap one active in
      let now = ap (λ st. one (is_active st)) over in
      let sum = kept.counted in
      let bound = num_active-bound kept in
      changed-Kept c c' i kept changed l
        (λ e. let clash : transfer_finished ≡ connection_empty = sym over ∙ e in cc)
        (omega (arith, change, before, now, sum, less, bound, small))

  -- A client is accepted.
  pub accept-Kept :
      (c : Clients) (conn : FileshareConnection)
      → Kept max_conns c
      → c.num_connected < max_conns
      → conn.state ≡ send_file_size
      → Kept max_conns (record {
        conns = update c.conns c.num_connected conn;
        num_active = u64 (c.num_active + 1);
        num_connected = u64 (c.num_connected + 1);
      })
  accept-Kept c conn kept l new =
      let next : u64 (c.num_connected + 1) ≡ c.num_connected + 1 = omega (arith, l, small) in
      record {
        room = omega (arith, next, l);
        used = λ u l'.
            each
              (λ v (d : FileshareConnection). v < c.num_connected + 1 → d.state ≢ connection_empty)
              c.conns c.num_connected conn
              (λ l'' e. let clash : send_file_size ≡ connection_empty = sym new ∙ e in cc)
              (λ v ne l''. kept.used v (omega (arith, ne, l''))) u (omega (arith, next, l'));
        unused = λ u from.
            ap (λ (d : FileshareConnection). d.state)
              (update_ne c.conns c.num_connected conn u (λ e. omega (arith, e, from, next)))
            ∙ kept.unused u (omega (arith, from, next));
        counted =
            let sum = kept.counted in
            let change =
              total_change max_conns c.num_connected
                (activity (update c.conns c.num_connected conn)) (activity c.conns) l
                (λ u ne.
                  ap (λ (d : FileshareConnection). one (is_active d.state))
                    (update_ne c.conns c.num_connected conn u ne)) in
            let now =
              ap (λ (d : FileshareConnection). one (is_active d.state))
                (update_self c.conns c.num_connected conn)
              ∙ ap (λ st. one (is_active st)) new in
            let before =
              ap (λ st. one (is_active st)) (kept.unused c.num_connected (omega arith)) in
            let all =
              total-bound max_conns (activity (update c.conns c.num_connected conn))
                (λ i. one-bound (is_active (update c.conns c.num_connected conn i).state)) in
            omega (arith, sum, change, now, before, all, small);
      }

  -- With no active client left, all are finished.
  pub none_active-AllFinished : (c : Clients) → Kept max_conns c → c.num_active ≡ 0 → AllFinished c
  none_active-AllFinished c kept zero_active i l =
      let sum = kept.counted in
      let room = kept.room in
      let part = total-part max_conns i (activity c.conns) (omega (arith, l, room)) in
      idle_finished (c.conns i).state (kept.used i l) (omega (arith, sum, part, zero_active))

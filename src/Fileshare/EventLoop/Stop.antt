-- ===== src/Fileshare/EventLoop/Stop.antt =====
-- The test at the head of both loops, and what the loops leave.
use networking_howto.Prelude.{
  ℕ, ◌≤◌, ◌<◌, ◌≡◌, ◌≢◌, ◌^◌, Bool, true, false, not, ◌&&◌, arith, refl, sym, ap, ◌∙◌,
  if◌then◌else◌, ◌==◌, ==_iff, Bool-cases, inl, inr,
}
use networking_howto.Prelude.Program.{Outcome, done}
use networking_howto.Prelude.Ends.{Ends}
use networking_howto.Fileshare.Posix.{Posix}
use networking_howto.Fileshare.Multiplexing.Setup.{program_in_shutdown}
use networking_howto.Fileshare.EventLoop.{Clients, accepts_new}
use networking_howto.Fileshare.EventLoop.Table.{Kept, AllFinished, none_active-AllFinished}

module _ (os : Posix) (max_conns : ℕ) where
  -- The clients when the loop stops, or when its rounds are used up.
  abbrev pub Left : Bool → Clients → os.World → Type 0
  Left true c w = AllFinished c × (accepts_new os max_conns c w ≡ false)
  Left false c w = Unit

  pub record LoopResult (r : Bool × Clients) (w : os.World) : Type 0 where
    pub kept : Kept max_conns r.1
    pub left : Left r.0 r.1 w

  pub room_left :
      (c : Clients) (w : os.World)
      → c.num_connected ≤ max_conns
      → accepts_new os max_conns c w ≡ true
      → c.num_connected < max_conns
  room_left c w room e = elim (Bool-cases (c.num_connected == max_conns)) [
    | inl full ↦
        let clash : false ≡ true =
          sym (ap (λ b. not b && not (program_in_shutdown os w)) full) ∙ e in
        cc
    | inr free ↦
        let ne : c.num_connected ≢ max_conns =
          λ same. let full = (==_iff c.num_connected max_conns).1 same in cc in
        omega (arith, room, ne)
  ]

  -- The loop stops or goes on.
  pub stop_or-Ends :
      (E : Type 0)
      → max_conns < 2 ^ 64
      → (c : Clients) (w : os.World) (again : Outcome os.World (Bool × Clients)) → Kept max_conns c
      → Ends E LoopResult again
      → Ends E LoopResult (
          if c.num_active == 0 && not (accepts_new os max_conns c w)
          then done (true, c) w
          else again)
  stop_or-Ends E small c w again kept next =
      by_tests (c.num_active == 0) (accepts_new os max_conns c w) refl refl
    where
      by_tests :
          (idle accepting : Bool)
          → (c.num_active == 0) ≡ idle
          → accepts_new os max_conns c w ≡ accepting
          → Ends E LoopResult (if idle && not accepting then done (true, c) w else again)
      by_tests true false idle e = record {
        kept = kept;
        left = (none_active-AllFinished small c kept ((==_iff c.num_active 0).0 idle), e);
      }
      by_tests true true idle e = next
      by_tests false accepting idle e = next

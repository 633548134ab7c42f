-- ===== src/Fileshare/EventLoop/Turns.antt =====
-- What one step does to the array of connections: a client is accepted, or one connection changes.
use networking_howto.Prelude.{ℕ, ◌+◌, ◌<◌, ◌≡◌, ◌≢◌, ◌^◌, Bool, true, false, sub64, sym, ap, ◌∙◌}
use networking_howto.Fileshare.Multiplexing.{transfer_finished}
use networking_howto.Fileshare.Multiplexing.Transfer.{is_active}
use networking_howto.Fileshare.EventLoop.{Clients}
use networking_howto.Fileshare.EventLoop.Table.{Kept, ChangedAt, put-Kept, drop-Kept}
use networking_howto.Fileshare.EventLoop.Switch.{GoesOn}

-- One client more, and the others as they were.
pub record Accepted (max_conns : ℕ) (c c' : Clients) : Type 0 where
  pub kept : Kept max_conns c'
  pub one_more : c'.num_connected ≡ c.num_connected + 1
  pub active : is_active (c'.conns c.num_connected).state ≡ true
  pub others : (j : ℕ) → j ≢ c.num_connected → c'.conns j ≡ c.conns j

-- A step on one connection keeps the array, and all other connections; a transfer that goes on keeps
-- its socket.
pub record Turned (max_conns : ℕ) (c : Clients) (i : ℕ) (c' : Clients) : Type 0 where
  pub kept : Kept max_conns c'
  pub changed : ChangedAt i c c'
  pub same_fd :
      is_active (c'.conns i).state ≡ true → (c'.conns i).client_sock_fd ≡ (c.conns i).client_sock_fd

-- What the switch leaves: with success the array is kept, and without it the connection is finished,
-- but not taken from the count.
pub record Written (c : Clients) (i : ℕ) (ok : Bool) (c' : Clients) : Type 0 where
  pub changed : ChangedAt i c c'
  pub same_active : c'.num_active ≡ c.num_active
  pub goes_on : GoesOn ok (c'.conns i).state
  pub same_fd : (c'.conns i).client_sock_fd ≡ (c.conns i).client_sock_fd

module _ {max_conns : ℕ} (small : max_conns < 2 ^ 64) where
  pub drop-Turned :
      (c c' : Clients) (i : ℕ)
      → Kept max_conns c
      → ChangedAt i c c'
      → i < c.num_connected
      → c'.num_active ≡ sub64 c.num_active 1
      → is_active (c.conns i).state ≡ true
      → (c'.conns i).state ≡ transfer_finished
      → Turned max_conns c i c'
  drop-Turned c c' i kept changed l less active over = record {
    kept = drop-Kept small c c' i kept changed l less active over;
    changed = changed;
    same_fd = λ active'. let clash : false ≡ true = sym (ap is_active over) ∙ active' in cc;
  }

  pub success-Turned :
      (c c' : Clients) (i : ℕ)
      → Kept max_conns c
      → i < c.num_connected
      → is_active (c.conns i).state ≡ true
      → Written c i true c'
      → Turned max_conns c i c'
  success-Turned c c' i kept l active written = record {
    kept = put-Kept small c c' i kept written.changed l written.same_active active written.goes_on;
    changed = written.changed;
    same_fd = λ active'. written.same_fd;
  }

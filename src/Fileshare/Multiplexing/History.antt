-- ===== src/Fileshare/Multiplexing/History.antt =====
-- The calls that a multiplexing server makes for one of its clients, in the order in which it makes them.
use networking_howto.Prelude.{ℕ, ◌+◌, ◌≡◌, Bool, some}
use networking_howto.Fileshare.Posix.{Posix}
use networking_howto.Fileshare.Laws.{Laws}
use networking_howto.Fileshare.Multiplexing.Header.{cut_at}
use networking_howto.Fileshare.Multiplexing.{FileshareServer, FileshareConnection, send_next}

module _ (os : Posix) (laws : Laws os) (server : FileshareServer) where
  open laws use {sent, content}

  -- The history of one connection: calls of its switch while the transfer goes on, and in between
  -- anything that leaves the bytes sent to this client and the file as they are.
  pub data History (conn : FileshareConnection) (w : os.World)
      : FileshareConnection → os.World → Type 0 where
    accepted : History conn w conn w
    turn :
        {c c' : FileshareConnection} {v v' : os.World} (ok : Bool)
        → History conn w c v
        → send_next os server c v ≡ some ((ok, c'), v')
        → History conn w c' v'
    others :
        {c : FileshareConnection} {v : os.World} (v' : os.World)
        → History conn w c v
        → sent v' c.client_sock_fd ≡ sent v c.client_sock_fd
        → content v' server.src_file_fd ≡ content v server.src_file_fd
        → History conn w c v'

  -- How many writes of the size to this client were cut short.
  unfoldable pub cuts :
      {conn : FileshareConnection} {w : os.World} {c : FileshareConnection} {v : os.World}
      → History conn w c v
      → ℕ
  cuts accepted = 0
  cuts (turn {c} {v = v} ok h e) = cut_at os server c v c.state + cuts h
  cuts (others v' h same_sent same_file) = cuts h

-- ===== src/Muxcool/Server/Alone.antt =====
-- muxcool/server.go: `finish`, `closeAll` and the start of `landUDP` from begin to end, as they run where no
-- step of another goroutine comes between their own.
use ntr.Prelude.{ℕ, Bool, false, Option, none, some, List, [], ◌∷◌, if◌then◌else◌, get_elem?}
use ntr.Prelude.Bytes.{Bytes}
use ntr.Muxcool.Server.{
  Action, conn_closed, link_closed, Piece, Session, ServerWorker, emit, update, marked, next_piece,
  activated, next_write,
}

-- The pieces that are left, one by one.
unfoldable pub do_pieces : ServerWorker → ℕ → Session → List Piece → ServerWorker
do_pieces w p s [] = w
do_pieces w p s (t ∷ ts) = do_pieces (next_piece w p s (t ∷ ts)) p (record s { todo = ts }) ts

unfoldable pub finish_at : ServerWorker → ℕ → Bool → Option Session → ServerWorker
finish_at w p send_end none = w
finish_at w p send_end (some s) =
    let s' = marked s send_end in if s.once then w else do_pieces (update w p s') p s' s'.todo

unfoldable pub finish : ServerWorker → ℕ → Bool → ServerWorker
finish w p send_end = finish_at w p send_end (get_elem? w.store p)

unfoldable pub finish_all : ServerWorker → List (ℕ × ℕ) → ServerWorker
finish_all w [] = w
finish_all w ((id, p) ∷ more) = finish_all (finish w p false) more

-- `closeAll`, in the order in which the map is walked here.
unfoldable pub close_all : ServerWorker → ServerWorker
close_all w = emit (finish_all w w.sessions) (link_closed ∷ [])

-- The writes that are left, one by one.
unfoldable pub do_writes : ServerWorker → ℕ → Session → List Action → ServerWorker
do_writes w p s [] = w
do_writes w p s (a ∷ more) =
    do_writes (next_write w p s (a ∷ more)) p (record s { to_write = more }) more

-- `landUDP` when the dial has ended with a connection, up to its first read.
unfoldable pub land_udp : ServerWorker → ℕ → ℕ → Bytes → Option Session → ServerWorker
land_udp w p c first none = w
land_udp w p c first (some s) =
    let s' = activated s c first in
    if s.finished then emit w (conn_closed c ∷ []) else do_writes (update w p s') p s' s'.to_write

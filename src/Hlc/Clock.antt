-- ===== src/Hlc/Clock.antt =====
-- A new clock is later than the clocks that it was made from.
use peer_server.Prelude.{ℕ, ◌≡◌, ◌≤◌, ◌<◌, some, arith, Text}
use peer_server.Hlc.{Hlc, create_hlc, merge_hlc, compare_hlc, is_later}
use peer_server.Hlc.Order.{Later}

pub Later-of_counter : (a b : Hlc) → b.ts ≤ a.ts → (b.ts ≡ a.ts → b.counter < a.counter) → Later a b
unfolding is_later compare_hlc
Later-of_counter a b h k = ground (arith, k)

-- A tick of the clock is later than the clock, whatever the wall clock says.
pub create_hlc-Later : (now : ℕ) (node : Text) (h : Hlc) → Later (create_hlc now node (some h)) h
create_hlc-Later now node h =
    Later-of_counter _ h (unfold create_hlc in ground arith) (unfold create_hlc in ground arith)

-- The clock after a remote clock has been seen is later than the local one and than the remote one,
-- whatever the wall clock says.
pub merge_hlc-Later :
    (now : ℕ) (local remote : Hlc) (node : Text)
    → Later (merge_hlc now local remote node) local × Later (merge_hlc now local remote node) remote
merge_hlc-Later now local remote node = (
  Later-of_counter _ local (unfold merge_hlc in ground arith) (unfold merge_hlc in ground arith),
  Later-of_counter _ remote (unfold merge_hlc in ground arith) (unfold merge_hlc in ground arith),
)

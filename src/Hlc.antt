-- ===== src/Hlc.antt =====
-- packages/peer-client/src/sync.ts, lines 9-35, and the type HLC of core/types.ts: the hybrid
-- logical clock. A timestamp is a number of milliseconds, a natural number; what `Date.now()`
-- returns is the argument `now`.
pub mod Order
pub mod Clock
use peer_server.Prelude.{
  ℕ, ◌+◌, max, Option, none, some, Bool, ◌&&◌, ◌==◌, if◌then◌else◌, Text, text_compare, text_eq,
  Ordering,
}
use peer_server.Prelude.Int.{ℤ, pos, negsuc, sub_ℕ, is_positive}

pub record Hlc : Type 0 where
  pub ts : ℕ
  pub counter : ℕ
  pub node : Text

-- `createHLC`, by whether there is an existing clock.
unfoldable pub create_hlc : ℕ → Text → Option Hlc → Hlc
create_hlc now node none = record { ts = now; counter = 0; node = node }
create_hlc now node (some existing) =
    let ts = max now existing.ts in
    record { ts = ts; counter = if ts == existing.ts then existing.counter + 1 else 0; node = node }

unfoldable pub merge_hlc : ℕ → Hlc → Hlc → Text → Hlc
merge_hlc now local remote node =
    let max_ts = max now (max local.ts remote.ts) in
    record {
      ts = max_ts;
      counter =
          if (max_ts == local.ts) && (max_ts == remote.ts)
          then max local.counter remote.counter + 1
          else if max_ts == local.ts
          then local.counter + 1
          else if max_ts == remote.ts
          then remote.counter + 1
          else 0;
      node = node;
    }

-- The last line of `compareHLC`: `a.node < b.node ? -1 : a.node > b.node ? 1 : 0`.
unfoldable pub compare_node : Text → Text → ℤ
compare_node a b = elim (text_compare a b) [
  | Ordering.lt ↦ negsuc 0
  | Ordering.gt ↦ pos 1
  | Ordering.eq ↦ pos 0
]

unfoldable pub compare_hlc : Hlc → Hlc → ℤ
compare_hlc a b =
    if a.ts == b.ts
    then (if a.counter == b.counter then compare_node a.node b.node else sub_ℕ a.counter b.counter)
    else sub_ℕ a.ts b.ts

-- The test `compareHLC(a, b) > 0`.
unfoldable pub is_later : Hlc → Hlc → Bool
is_later a b = is_positive (compare_hlc a b)

-- ===== src/Clean/Bounded.antt =====
-- The query for a layout in src/clean.c ends by its limit on the room that it asks for.
use native.Mathlib.Numerals.{unary_clauses}
use deadflash.Base.{ℕ, zero, suc, ◌*◌, ◌^◌, ◌≤◌, ◌<◌, ◌≡◌, refl, sym, ◌∙◌, leb, arith, false}
use deadflash.Clean.Layout.{query_loop, query_layout_handle, capacity_limit}
use deadflash.Windows.{Win}

module _ (win : Win) (handle : ℕ) where
  doubled : (c p : ℕ) → capacity_limit < c * (p * 2) → capacity_limit < (c * 2) * p
  doubled c p h = grind arith

  -- Rounds beyond those that reach the limit change nothing.
  query_loop_enough :
      (n m capacity : ℕ)
      → capacity_limit < capacity * 2 ^ n
      → n ≤ m
      → query_loop win m capacity handle ≡ query_loop win n capacity handle
  unfolding query_loop
  query_loop_enough zero zero capacity h k = refl
  query_loop_enough zero (suc m) capacity h k =
      let over : leb capacity capacity_limit ≡ false = ground (arith, h) in rw over
  query_loop_enough (suc n) zero capacity h k = absurd (omega arith)
  query_loop_enough (suc n) (suc m) capacity h k =
      let twice : capacity_limit < (capacity * 2) * 2 ^ n =
        doubled capacity (2 ^ n) (simp unary_clauses at h) in
      rw (query_loop_enough n m (capacity * 2) twice (omega arith))

-- The loop that asks for a layout ends after at most nine rounds: run with nine or more, it does
-- the same and gives the same answer.
pub query_layout_handle_enough :
    (win : Win) (handle n : ℕ)
    → 9 ≤ n
    → query_loop win n 4096 handle ≡ query_layout_handle win handle
unfolding query_layout_handle
query_layout_handle_enough win handle n h =
    query_loop_enough win handle 9 n 4096 (omega arith) h
    ∙ sym (query_loop_enough win handle 9 10 4096 (omega arith) (omega arith))

-- ===== src/Stack/Laws.antt =====
-- What a client of the stack of mdv_stack.h relies on.
use medved_db.Base.{
  ℕ, ◌+◌, ◌-◌, ◌≤◌, ◌<◌, ◌≡◌, refl, ap, List, ◌++◌, true, false, some, arith, length, length-append,
  take-append, drop-append, take, drop,
}
use medved_db.Stack.{Stack, push_multiple, pop_multiple}

module _ {ℓ} {A : Type ℓ} where
  -- The number of items is within the capacity.
  abbrev pub Fits : Stack A → Type 0
  Fits st = length st.items ≤ st.capacity

  pub push_multiple-room :
      (st : Stack A) (new : List A)
      → length st.items + length new ≤ st.capacity
      → push_multiple st new ≡ (true, record st { items = st.items ++ new })
  unfolding push_multiple
  push_multiple-room st new h = ground arith

  pub push_multiple-full :
      (st : Stack A) (new : List A)
      → st.capacity < length st.items + length new
      → push_multiple st new ≡ (false, st)
  unfolding push_multiple
  push_multiple-full st new h = ground arith

  -- A pop of as many items as stand on top returns them in the order in which they were pushed.
  pub pop_multiple-append :
      (st : Stack A) (below top : List A) (n : ℕ)
      → st.items ≡ below ++ top
      → length top ≡ n
      → pop_multiple st n ≡ (some top, record st { items = below })
  unfolding pop_multiple
  pop_multiple-append st below top n e h =
      let l : length st.items - n ≡ length below =
        omega (arith, length-append below top, ap length e) in
      let fits : n ≤ length st.items = omega (arith, length-append below top, ap length e) in
      let t : take (length st.items - n) st.items ≡ below =
        rw (l, e) (take-append below top _ refl) in
      let d : drop (length st.items - n) st.items ≡ top =
        rw (l, e) (drop-append below top _ refl) in
      ground (arith, t, d)

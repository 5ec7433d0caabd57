-- ===== src/Vm/Logic.antt =====
-- The handlers `mdv_vmop_and`, `mdv_vmop_or` and `mdv_vmop_not` of mdv_vm.c.
use Prim.Native.Nat.{bit_and, bit_or}
use mathlib.Core.List.{map}
use medved_db.Base.{
  ℕ, suc, ◌+◌, ◌-◌, ◌^◌, ◌≤◌, ◌<◌, ◌≡◌, refl, ap, ◌∙◌, ◌≢◌, List, [], ◌∷◌, ◌++◌, append_assoc,
  arith, length, length-append, length-map, take, drop, take_of_split, drop_of_split, le_bytes, All,
}
use mathlib.Core.Path.{ap₂}
use medved_db.Errno.{invalid_arg}
use medved_db.Vm.{Datum, internal, datum_size, payload, Machine, done, fail, contents, stack_push}
use medved_db.Vm.Ops.{and, or, not_op, invert, zip_bytes, complement}
use medved_db.Vm.RoundTrip.{
  with_items, encode, stack_push-room, stack_top-encode, length-items, split_payload,
}
use medved_db.Vm.Order.{Operands, pop_pair-encode, length-contents}

pub length-zip_bytes :
    (op : ℕ → ℕ → ℕ) (xs ys : List ℕ)
    → length xs ≡ length ys
    → length (zip_bytes op xs ys) ≡ length xs
unfolding zip_bytes
length-zip_bytes op [] ys h = refl
length-zip_bytes op (x ∷ xs) [] h = absurd (omega arith)
length-zip_bytes op (x ∷ xs) (y ∷ ys) h = ap suc (length-zip_bytes op xs ys (omega arith))

encode_internal : (bs : List ℕ) → encode (internal bs) ≡ bs ++ (le_bytes 4 (length bs) ++ 0 ∷ [])
unfolding encode payload datum_size
encode_internal bs = refl

module _ {a b : Datum} {below : List ℕ} {m : Machine} (o : Operands a b below m) where
  push_zip :
      (op : ℕ → ℕ → ℕ)
      → datum_size a ≡ datum_size b
      → length below + (datum_size a + 5) ≤ m.stack.capacity
      → stack_push
          (internal (zip_bytes op (contents m.memory a) (contents m.memory b)))
          (with_items m below)
        ≡ (
          done tt,
          with_items m (
              below
              ++ encode (internal (zip_bytes op (contents m.memory a) (contents m.memory b)))),
        )
  unfolding payload
  push_zip op same room = stack_push-room _ (with_items m below) (
      omega (
        arith,
        length-zip_bytes op (contents m.memory a) (contents m.memory b),
        length-contents m.memory a,
        length-contents m.memory b,
      ))

  -- Operands of one size are replaced by their bitwise conjunction, if it fits.
  pub and_same_size :
      datum_size a ≡ datum_size b
      → length below + (datum_size a + 5) ≤ m.stack.capacity
      → and m ≡ (
        done tt,
        with_items m (
            below
            ++ encode (internal (zip_bytes bit_and (contents m.memory a) (contents m.memory b)))),
      )
  unfolding and
  and_same_size same room = rw (pop_pair-encode o) (ground (arith, push_zip bit_and same room))

  pub or_same_size :
      datum_size a ≡ datum_size b
      → length below + (datum_size a + 5) ≤ m.stack.capacity
      → or m ≡ (
        done tt,
        with_items m (
            below
            ++ encode (internal (zip_bytes bit_or (contents m.memory a) (contents m.memory b)))),
      )
  unfolding or
  or_same_size same room = rw (pop_pair-encode o) (ground (arith, push_zip bit_or same room))

  -- Operands of two sizes are refused, and both are gone from the stack.
  pub logic_two_sizes :
      datum_size a ≢ datum_size b
      → (and m ≡ (fail invalid_arg, with_items m below))
        × (or m ≡ (fail invalid_arg, with_items m below))
  unfolding and or
  logic_two_sizes differ =
      (rw (pop_pair-encode o) (ground arith), rw (pop_pair-encode o) (ground arith))

-- `not` complements each byte of the datum on top, in its place.
pub not_op-encode :
    (bs below : List ℕ) (m : Machine)
    → length bs < 2 ^ 32
    → m.stack.items ≡ below ++ encode (internal bs)
    → not_op m ≡ (done tt, with_items m (below ++ encode (internal (map complement bs))))
unfolding not_op invert
not_op-encode bs below m h e =
    let d : Datum = internal bs in
    let items : List ℕ = m.stack.items in
    let n = length-items below d items e in
    let tail : List ℕ = le_bytes 4 (length bs) ++ 0 ∷ [] in
    let low : take (length items - 5 - length bs) items ≡ below =
      take_of_split items below (encode d) (length items - 5 - length bs) e
        (unfold payload in omega (arith, n)) in
    let high : drop (length items - 5) items ≡ tail =
      unfold payload datum_size in
      drop_of_split items (below ++ bs) tail (length items - 5) (e ∙ split_payload below d)
        (omega (arith, n, length-append below bs)) in
    rw (stack_top-encode d m below h e)
      (rw (low, high) (rw (encode_internal (map complement bs), length-map) (simp append_assoc)))

-- A byte that is complemented twice is what it was.
pub complement_twice :
    (bs : List ℕ) → All (λ x. x < 256) bs → map complement (map complement bs) ≡ bs
complement_twice [] h = refl
complement_twice (x ∷ bs) h =
    let first : complement (complement x) ≡ x = omega (arith, h.0) in
    ap₂ ◌∷◌ first (complement_twice bs h.1)

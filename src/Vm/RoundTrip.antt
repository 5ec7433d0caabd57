-- ===== src/Vm/RoundTrip.antt =====
-- Data pushed on the stack of mdv_vm.c come back as they were.
use medved_db.Base.{
  ℕ, ◌+◌, ◌-◌, ◌^◌, ◌≤◌, ◌<◌, ◌≡◌, refl, ap, sym, ◌∙◌, List, [], ◌∷◌, ◌++◌, append_assoc, Bool,
  true, false, arith, length, length-append, length-le_bytes, of_le-le_bytes, le_bytes, of_le, take,
  drop, take-append, drop_of_split, if◌then◌else◌,
}
use medved_db.Errno.{stack_overflow}
use medved_db.Stack.Laws.{push_multiple-room, push_multiple-full, pop_multiple-append}
use medved_db.Vm.{
  Datum, internal, external, datum_size, payload, is_external, flag_byte, Machine, done, fail,
  push_bytes, pop_bytes, stack_push, stack_pop, stack_top, make_datum, to_bool, header_at, top_at,
}

-- The machine with other bytes on its stack.
abbrev pub with_items : Machine → List ℕ → Machine
with_items m items = record m { stack = record (m.stack) { items = items } }

-- The bytes of a datum on the stack: the payload, the size and the flag.
unfoldable pub encode : Datum → List ℕ
encode d = payload d ++ (le_bytes 4 (datum_size d) ++ flag_byte (is_external d) ∷ [])

-- A datum that the fields of `mdv_vm_datum` can hold.
abbrev pub IsDatum : Datum → Type 0
IsDatum (internal bs) = length bs < 2 ^ 32
IsDatum (external n a) = (n < 2 ^ 32) × (a < 2 ^ 64)

pub length-encode : (d : Datum) → length (encode d) ≡ length (payload d) + 5
unfolding encode
length-encode d = omega (
  arith,
  length-append (payload d) (le_bytes 4 (datum_size d) ++ flag_byte (is_external d) ∷ []),
  length-append (le_bytes 4 (datum_size d)) (flag_byte (is_external d) ∷ []),
  length-le_bytes 4 (datum_size d),
)

push_bytes-room :
    (bs : List ℕ) (m : Machine)
    → length m.stack.items + length bs ≤ m.stack.capacity
    → push_bytes bs m ≡ (done tt, with_items m (m.stack.items ++ bs))
unfolding push_bytes
push_bytes-room bs m h = rw (push_multiple-room m.stack bs h)

push_bytes-full :
    (bs : List ℕ) (m : Machine)
    → m.stack.capacity < length m.stack.items + length bs
    → push_bytes bs m ≡ (fail stack_overflow, m)
unfolding push_bytes
push_bytes-full bs m h = rw (push_multiple-full m.stack bs h)

pop_bytes-append :
    (n : ℕ) (m : Machine) (below top : List ℕ)
    → m.stack.items ≡ below ++ top
    → length top ≡ n
    → pop_bytes n m ≡ (done top, with_items m below)
unfolding pop_bytes
pop_bytes-append n m below top e h = ground (arith, pop_multiple-append m.stack below top n e h)

pub stack_push-room :
    (d : Datum) (m : Machine)
    → length m.stack.items + (length (payload d) + 5) ≤ m.stack.capacity
    → stack_push d m ≡ (done tt, with_items m (m.stack.items ++ encode d))
unfolding stack_push encode
stack_push-room d m h =
    let size : List ℕ = le_bytes 4 (datum_size d) in
    let one : List ℕ = m.stack.items ++ payload d in
    let l : length one ≡ length m.stack.items + length (payload d) = length-append _ (payload d) in
    let two : List ℕ = one ++ size in
    let l' : length two ≡ length one + 4 =
      length-append one size ∙ ap (◌+◌ (length one)) (length-le_bytes 4 (datum_size d)) in
    rw
      (
        push_bytes-room (payload d) m (omega arith),
        push_bytes-room size (with_items m one) (omega (arith, length-le_bytes 4 (datum_size d))),
        push_bytes-room (flag_byte (is_external d) ∷ []) (with_items m two) (omega arith),
      )
      (simp append_assoc)

-- What a pop finds under `below ++ encode d`, from the top down.
abbrev under_flag : List ℕ → Datum → List ℕ
under_flag below d = (below ++ payload d) ++ le_bytes 4 (datum_size d)

encode_split :
    (below : List ℕ) (d : Datum)
    → below ++ encode d ≡ under_flag below d ++ flag_byte (is_external d) ∷ []
unfolding encode
encode_split below d = simp append_assoc

pub split_payload :
    (below : List ℕ) (d : Datum)
    → below ++ encode d
      ≡ (below ++ payload d) ++ (le_bytes 4 (datum_size d) ++ flag_byte (is_external d) ∷ [])
unfolding encode
split_payload below d = simp append_assoc

payload_size : (d : Datum) → (if is_external d then 8 else datum_size d) ≡ length (payload d)
unfolding datum_size payload
payload_size (internal bs) = refl
payload_size (external n a) = sym (length-le_bytes 8 a)

size_lt : (d : Datum) → IsDatum d → datum_size d < 2 ^ 32
unfolding datum_size
size_lt (internal bs) h = h
size_lt (external n a) h = h.0

make_datum-payload :
    (d : Datum) → IsDatum d → make_datum (is_external d) (datum_size d) (payload d) ≡ d
unfolding datum_size payload
make_datum-payload (internal bs) h = refl
make_datum-payload (external n a) h = rw (of_le-le_bytes 8 a (omega (arith, h.1)))

flag_back : (b : Bool) → to_bool (of_le (flag_byte b ∷ [])) ≡ b
unfolding of_le
flag_back true = refl
flag_back false = refl

-- The bytes of a datum at the top are popped as that datum.
pub stack_pop-encode :
    (d : Datum) (m : Machine) (below : List ℕ)
    → IsDatum d
    → m.stack.items ≡ below ++ encode d
    → stack_pop m ≡ (done d, with_items m below)
unfolding stack_pop
stack_pop-encode d m below h e =
    let size : List ℕ = le_bytes 4 (datum_size d) in
    let flag : List ℕ = flag_byte (is_external d) ∷ [] in
    let e₁ : m.stack.items ≡ under_flag below d ++ flag = e ∙ encode_split below d in
    let s : of_le size ≡ datum_size d =
      of_le-le_bytes 4 (datum_size d) (omega (arith, size_lt d h)) in
    rw
      (
        pop_bytes-append 1 m (under_flag below d) flag e₁ refl,
        pop_bytes-append 4 (with_items m (under_flag below d)) (below ++ payload d) size refl
            (length-le_bytes 4 (datum_size d)),
        flag_back (is_external d),
        s,
        payload_size d,
        pop_bytes-append (length (payload d)) (with_items m (below ++ payload d)) below (payload d)
            refl refl,
        make_datum-payload d h,
      )
      refl

-- A datum that fits in the room of the stack and has fields of their widths is pushed, and the pop
-- after it gives the datum, internal or external, and leaves the machine as it was before the push.
pub stack_pop-stack_push :
    (d : Datum) (m : Machine)
    → IsDatum d
    → length m.stack.items + (length (payload d) + 5) ≤ m.stack.capacity
    → ((stack_push d m).0 ≡ done tt) × (stack_pop (stack_push d m).1 ≡ (done d, m))
stack_pop-stack_push d m h room =
    let pushes = stack_push-room d m room in
    rw pushes
      (refl, stack_pop-encode d (with_items m (m.stack.items ++ encode d)) m.stack.items h refl)

pub length-items :
    (below : List ℕ) (d : Datum) (items : List ℕ)
    → items ≡ below ++ encode d
    → length items ≡ length below + length (payload d) + 5
length-items below d items e =
    omega (arith, ap length e, length-append below (encode d), length-encode d)

header-encode :
    (d : Datum) (below items : List ℕ)
    → IsDatum d
    → items ≡ below ++ encode d
    → header_at (length items) items ≡ (datum_size d, is_external d)
unfolding header_at
header-encode d below items h e =
    let size : List ℕ = le_bytes 4 (datum_size d) in
    let flag : List ℕ = flag_byte (is_external d) ∷ [] in
    let n = length-items below d items e in
    let s : take 4 (drop (length items - 5) items) ≡ size =
      rw
        (drop_of_split items (below ++ payload d) (size ++ flag) (length items - 5)
          (e ∙ split_payload below d) (omega (arith, length-append below (payload d))))
        (take-append size flag 4 (length-le_bytes 4 (datum_size d))) in
    let f : drop (length items - 1) items ≡ flag =
      drop_of_split items (under_flag below d) flag (length items - 1) (e ∙ encode_split below d) (
        omega (
          arith,
          length-append (below ++ payload d) size,
          length-append below (payload d),
          length-le_bytes 4 (datum_size d),
        )) in
    rw
      (
        s,
        f,
        of_le-le_bytes 4 (datum_size d) (omega (arith, size_lt d h)),
        flag_back (is_external d),
      )
      refl

payload-top :
    (d : Datum) (below items : List ℕ)
    → items ≡ below ++ encode d
    → take (length (payload d)) (drop (length items - 5 - length (payload d)) items) ≡ payload d
unfolding encode
payload-top d below items e =
    let n = length-items below d items e in
    let rest : List ℕ = le_bytes 4 (datum_size d) ++ flag_byte (is_external d) ∷ [] in
    rw
      (drop_of_split items below (payload d ++ rest) (length items - 5 - length (payload d)) e
        (omega arith))
      (take-append (payload d) rest _ refl)

top_at-payload :
    (d : Datum) (m : Machine) (below : List ℕ)
    → IsDatum d
    → m.stack.items ≡ below ++ encode d
    → top_at (datum_size d, is_external d) m ≡ (done d, m)
unfolding top_at
top_at-payload d m below h e = rw (payload_size d) (
    ground (
      arith,
      length-items below d m.stack.items e,
      payload-top d below m.stack.items e,
      make_datum-payload d h,
    ))

-- A look at the top shows the datum that was pushed last, and changes nothing.
pub stack_top-encode :
    (d : Datum) (m : Machine) (below : List ℕ)
    → IsDatum d
    → m.stack.items ≡ below ++ encode d
    → stack_top m ≡ (done d, m)
unfolding stack_top
stack_top-encode d m below h e = ground (
  arith,
  length-items below d m.stack.items e,
  ap (λ x. top_at x m) (header-encode d below m.stack.items h e),
  top_at-payload d m below h e,
)

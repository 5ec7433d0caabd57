-- ===== src/Vm/Compiled.antt =====
-- Running the programs of `Programs` leaves the values of their expressions on the stack.
use Prim.Native.Nat.{bit_and, bit_or}
use mathlib.Core.List.{map}
use mathlib.Core.Path.{subst}
use medved_db.Base.{
  ℕ, suc, ◌+◌, ◌^◌, ◌≤◌, ◌<◌, ◌≡◌, refl, ap, ◌∙◌, List, ◌++◌, Option, none, some, arith, length,
  length-append, ◌==◌, le_bytes, length-le_bytes, get_elem?, Bool-cases, inl, inr,
}
use medved_db.Vm.{internal, datum_size, payload, Machine, done, M, contents}
use medved_db.Vm.Ops.{zip_bytes, complement, not_op, and, or}
use medved_db.Vm.Run.{predicate_fns}
use medved_db.Vm.RoundTrip.{with_items, encode, length-encode}
use medved_db.Vm.Order.{Operands, Comparison, handler, handler-lex, verdict, lex, room_below}
use medved_db.Vm.Logic.{and_same_size, or_same_size, not_op-encode}
use medved_db.Vm.Programs.{
  Expr, lit, compare_with, both, either, negate, eval, code, rounds, room, Fits, handler_id,
  call_code, eval-SmallValue, SmallValue, judge, zip_same, map_bytes, bool_bytes,
}
use medved_db.Vm.Instructions.{
  At, At-append, Reaches, run-step, run-call, step-push, handler-found, handler_id-lt,
}

-- A value is pushed by the program of an expression, from any place and on any stack with room.
abbrev pub Computes : Expr → List ℕ → Type 0
Computes e v =
    (k f ip : ℕ) (m : Machine)
    → At m.memory ip (code e)
    → length m.stack.items + room e ≤ m.stack.capacity
    → k ≡ rounds e + f
    → Reaches k ip m f (ip + length (code e)) (with_items m (m.stack.items ++ encode (internal v)))

-- Two programs and a call compute what the handler makes of the two values.
binary-Computes :
    (a b : Expr) (va vb v : List ℕ) (id : ℕ) (fn : M (Unit {0}))
    → Computes a va
    → Computes b vb
    → length va + 5 ≤ room a
    → length vb + 5 ≤ room b
    → id < 2 ^ 16
    → get_elem? predicate_fns id ≡ some fn
    → ((m m₂ : Machine)
        → m₂ ≡ with_items m ((m.stack.items ++ encode (internal va)) ++ encode (internal vb))
        → length m₂.stack.items ≤ m₂.stack.capacity
        → fn m₂ ≡ (done tt, with_items m (m.stack.items ++ encode (internal v))))
    → (k f ip : ℕ) (m : Machine) → At m.memory ip (code a ++ (code b ++ call_code id))
    → length m.stack.items + (room a + room b) ≤ m.stack.capacity
    → k ≡ rounds a + rounds b + 1 + f
    → Reaches k ip m f
        (ip + length (code a ++ (code b ++ call_code id)))
        (with_items m (m.stack.items ++ encode (internal v)))
unfolding payload
binary-Computes a b va vb v id fn ca cb la lb small found works k f ip m at fits e =
    let items : List ℕ = m.stack.items in
    let m₁ : Machine = with_items m (items ++ encode (internal va)) in
    let m₂ : Machine = with_items m ((items ++ encode (internal va)) ++ encode (internal vb)) in
    let at₁ = At-append m.memory ip (code a) (code b ++ call_code id) at in
    let at₂ = At-append m.memory (ip + length (code a)) (code b) (call_code id) at₁.1 in
    let l₁ : length (items ++ encode (internal va)) ≡ length items + (length va + 5) =
      omega (arith, length-append items (encode (internal va)), length-encode (internal va)) in
    let l₂ : length m₂.stack.items ≡ length items + (length va + 5) + (length vb + 5) = omega (
      arith,
      l₁,
      length-append (items ++ encode (internal va)) (encode (internal vb)),
      length-encode (internal vb),
    ) in
    let end : ip + length (code a) + length (code b) + 1 + 2
        ≡ ip + length (code a ++ (code b ++ call_code id)) =
      omega (
        arith,
        length-append (code a) (code b ++ call_code id),
        length-append (code b) (call_code id),
        length-le_bytes 2 id,
      ) in
    ca k (rounds b + (1 + f)) ip m at₁.0 (omega arith) (omega arith)
    ∙ cb (rounds b + (1 + f)) (suc f) (ip + length (code a)) m₁ at₂.0 (omega arith) (omega arith)
    ∙ subst
        (λ p.
          Reaches (suc f) (ip + length (code a) + length (code b)) m₂ f p
            (with_items m (items ++ encode (internal v))))
        end
        (run-call f (ip + length (code a) + length (code b)) id fn m₂ _ at₂.1 small found
          (works m m₂ refl (omega arith)))

lit-Computes : (bs : List ℕ) → length bs < 2 ^ 32 → Computes (lit bs) bs
unfolding rounds room
lit-Computes bs small k f ip m at fits e =
    let end : ip + 1 + 5 + length bs ≡ ip + length (code (lit bs)) =
      unfold code in
      omega (arith, length-append (le_bytes 4 (length bs)) bs, length-le_bytes 4 (length bs)) in
    subst (λ p. Reaches k ip m f p (with_items m (m.stack.items ++ encode (internal bs)))) end
      (run-step k f ip (ip + 1 + 5 + length bs) m _ (omega arith)
        (step-push predicate_fns ip bs m at small fits))

-- The operands that a binary handler finds after two programs.
stacked-Operands :
    (va vb : List ℕ) (m m₂ : Machine)
    → length va < 2 ^ 32
    → length vb < 2 ^ 32
    → m₂ ≡ with_items m ((m.stack.items ++ encode (internal va)) ++ encode (internal vb))
    → length m₂.stack.items ≤ m₂.stack.capacity
    → Operands (internal va) (internal vb) m.stack.items m₂
stacked-Operands va vb m m₂ sa sb e fits = record {
  first = sa;
  second = sb;
  stacked = ap (λ x. x.stack.items) e;
  within = fits;
}

compare-Computes :
    (c : Comparison) (a b : Expr) (va vb : List ℕ)
    → Computes a va
    → Computes b vb
    → SmallValue (room a) (some va)
    → SmallValue (room b) (some vb)
    → Computes (compare_with c a b) (bool_bytes (verdict c (lex va vb)))
unfolding code rounds room contents
compare-Computes c a b va vb ca cb sa sb =
    binary-Computes a b va vb _ (handler_id c) (handler c) ca cb sa.0 sb.0 (handler_id-lt c)
      (handler-found c)
      λ m m₂ e fits.
        handler-lex (stacked-Operands va vb m m₂ sa.1 sb.1 e fits) c
        ∙ ap
            (λ x. (
              done tt,
              with_items x
                  (m.stack.items ++ encode (internal (bool_bytes (verdict c (lex va vb))))),
            ))
            e

both-Computes :
    (a b : Expr) (va vb : List ℕ)
    → Computes a va
    → Computes b vb
    → SmallValue (room a) (some va)
    → SmallValue (room b) (some vb)
    → length va ≡ length vb
    → Computes (both a b) (zip_bytes bit_and va vb)
unfolding code rounds room contents datum_size payload
both-Computes a b va vb ca cb sa sb same =
    binary-Computes a b va vb _ 6 and ca cb sa.0 sb.0 (omega arith) refl λ m m₂ e fits.
      let o = stacked-Operands va vb m m₂ sa.1 sb.1 e fits in
      and_same_size o same (omega (arith, room_below o))
      ∙ ap
          (λ x.
            (done tt, with_items x (m.stack.items ++ encode (internal (zip_bytes bit_and va vb)))))
          e

either-Computes :
    (a b : Expr) (va vb : List ℕ)
    → Computes a va
    → Computes b vb
    → SmallValue (room a) (some va)
    → SmallValue (room b) (some vb)
    → length va ≡ length vb
    → Computes (either a b) (zip_bytes bit_or va vb)
unfolding code rounds room contents datum_size payload
either-Computes a b va vb ca cb sa sb same =
    binary-Computes a b va vb _ 7 or ca cb sa.0 sb.0 (omega arith) refl λ m m₂ e fits.
      let o = stacked-Operands va vb m m₂ sa.1 sb.1 e fits in
      or_same_size o same (omega (arith, room_below o))
      ∙ ap
          (λ x.
            (done tt, with_items x (m.stack.items ++ encode (internal (zip_bytes bit_or va vb)))))
          e

negate-Computes :
    (a : Expr) (va : List ℕ)
    → Computes a va
    → SmallValue (room a) (some va)
    → Computes (negate a) (map complement va)
unfolding code rounds room
negate-Computes a va ca sa k f ip m at fits e =
    let at₁ = At-append m.memory ip (code a) (call_code 8) at in
    let m₁ : Machine = with_items m (m.stack.items ++ encode (internal va)) in
    ca k (suc f) ip m at₁.0 fits (omega arith)
    ∙ subst
        (λ p.
          Reaches (suc f) (ip + length (code a)) m₁ f p
            (with_items m (m.stack.items ++ encode (internal (map complement va)))))
        (omega (arith, length-append (code a) (call_code 8), length-le_bytes 2 8))
        (run-call f (ip + length (code a)) 8 not_op m₁ _ at₁.1 (omega arith) refl
          (not_op-encode va m.stack.items m₁ sa.1 refl))

-- The value of an expression with operands, by the values of these.
abbrev WhenValue : Expr → Option (List ℕ) → Type 0
WhenValue e none = Unit
WhenValue e (some v) = Computes e v

when_compare :
    (c : Comparison) (a b : Expr) (va vb : Option (List ℕ))
    → WhenValue a va
    → WhenValue b vb
    → SmallValue (room a) va
    → SmallValue (room b) vb
    → WhenValue (compare_with c a b) (judge c va vb)
when_compare c a b none vb ca cb sa sb = tt
when_compare c a b (some va) none ca cb sa sb = tt
when_compare c a b (some va) (some vb) ca cb sa sb = compare-Computes c a b va vb ca cb sa sb

when_both :
    (a b : Expr) (va vb : Option (List ℕ))
    → WhenValue a va
    → WhenValue b vb
    → SmallValue (room a) va
    → SmallValue (room b) vb
    → WhenValue (both a b) (zip_same bit_and va vb)
when_both a b none vb ca cb sa sb = tt
when_both a b (some va) none ca cb sa sb = tt
when_both a b (some va) (some vb) ca cb sa sb = elim (Bool-cases (length va == length vb)) [
  | inl e ↦ rw e (both-Computes a b va vb ca cb sa sb (ground arith))
  | inr e ↦ rw e tt
]

when_either :
    (a b : Expr) (va vb : Option (List ℕ))
    → WhenValue a va
    → WhenValue b vb
    → SmallValue (room a) va
    → SmallValue (room b) vb
    → WhenValue (either a b) (zip_same bit_or va vb)
when_either a b none vb ca cb sa sb = tt
when_either a b (some va) none ca cb sa sb = tt
when_either a b (some va) (some vb) ca cb sa sb = elim (Bool-cases (length va == length vb)) [
  | inl e ↦ rw e (either-Computes a b va vb ca cb sa sb (ground arith))
  | inr e ↦ rw e tt
]

when_negate :
    (a : Expr) (va : Option (List ℕ))
    → WhenValue a va
    → SmallValue (room a) va
    → WhenValue (negate a) (map_bytes complement va)
when_negate a none ca sa = tt
when_negate a (some va) ca sa = negate-Computes a va ca sa

eval-WhenValue : (e : Expr) → Fits e → WhenValue e (eval e)
unfolding eval
eval-WhenValue (lit bs) h = lit-Computes bs h
eval-WhenValue (compare_with c a b) h =
    when_compare c a b (eval a) (eval b) (eval-WhenValue a h.0) (eval-WhenValue b h.1)
      (eval-SmallValue a h.0) (eval-SmallValue b h.1)
eval-WhenValue (both a b) h =
    when_both a b (eval a) (eval b) (eval-WhenValue a h.0) (eval-WhenValue b h.1)
      (eval-SmallValue a h.0) (eval-SmallValue b h.1)
eval-WhenValue (either a b) h =
    when_either a b (eval a) (eval b) (eval-WhenValue a h.0) (eval-WhenValue b h.1)
      (eval-SmallValue a h.0) (eval-SmallValue b h.1)
eval-WhenValue (negate a) h = when_negate a (eval a) (eval-WhenValue a h) (eval-SmallValue a h)

pub eval-Computes : (e : Expr) (v : List ℕ) → Fits e → eval e ≡ some v → Computes e v
eval-Computes e v h r = subst (WhenValue e) r (eval-WhenValue e h)

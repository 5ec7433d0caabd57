-- ===== src/Vm/Safety.antt =====
-- The byte stack of mdv_vm.c is not written past its capacity, whatever program is run.
use medved_db.Base.{
  ℕ, zero, suc, ◌+◌, ◌-◌, ◌≤◌, ◌≡◌, refl, ap, sym, ◌∙◌, List, ◌++◌, Bool, true, false, Option, All,
  All-get_elem?, some, none, arith, length, length-append, length-take, length-drop, length-map,
  take, drop, get_elem?, if◌then◌else◌,
}
use mathlib.Core.List.{map}
use mathlib.Core.Path.{subst}
use medved_db.Errno.{Errno, no_impl}
use medved_db.Stack.{push_multiple, pop_multiple}
use medved_db.Vm.{
  Datum, internal, external, Machine, Outcome, done, fail, M, ◌>>=◌, resume, push_bytes, pop_bytes,
  stack_push, stack_pop, stack_top, pure, throw, top_at, header_at,
}
use medved_db.Vm.Ops.{
  equal, not_equal, greater, greater_or_equal, less, less_or_equal, and, or, not_op, get_memory,
  pop_pair, push_res, invert, complement,
}
use medved_db.Vm.Run.{Ended, loop, run, step, call, predicate_fns}

-- The stack has the capacity `limit`, and holds at most as many bytes.
pub record Bounded (limit : ℕ) (m : Machine) : Type 0 where
  pub capacity : m.stack.capacity ≡ limit
  pub within : length m.stack.items ≤ limit

-- A command that keeps the stack within its capacity.
pub record Keeps {A : Type 0} (c : M A) : Type 0 where
  pub keeps : (limit : ℕ) (m : Machine) → Bounded limit m → Bounded limit (c m).1

module _ {A B : Type 0} where
  resume-Bounded :
      (r : Outcome A × Machine) (f : A → M B) (limit : ℕ)
      → Bounded limit r.1
      → ((a : A) → Keeps (f a))
      → Bounded limit (resume r f).1
  resume-Bounded (done a, m) f limit b h = (h a).keeps limit m b
  resume-Bounded (fail e, m) f limit b h = b

  bind-Keeps : {c : M A} {f : A → M B} → Keeps c → ((a : A) → Keeps (f a)) → Keeps (c >>= f)
  bind-Keeps {c} {f} k h = record {
    keeps = λ limit m b. resume-Bounded (c m) f limit (k.keeps limit m b) h;
  }

if-Keeps : {A : Type 0} {c d : M A} (t : Bool) → Keeps c → Keeps d → Keeps (if t then c else d)
if-Keeps true k h = k
if-Keeps false k h = h

pure-Keeps : {A : Type 0} (a : A) → Keeps (pure a)
pure-Keeps a = record { keeps = λ limit m b. b }

throw-Keeps : {A : Type 0} (e : Errno) → Keeps {A = A} (throw e)
throw-Keeps e = record { keeps = λ limit m b. b }

get_memory-Keeps : Keeps get_memory
get_memory-Keeps = record { keeps = λ limit m b. b }

push_bytes-Keeps : (bs : List ℕ) → Keeps (push_bytes bs)
unfolding push_bytes push_multiple
push_bytes-Keeps bs = record { keeps = λ limit m b. ground (arith, length-append m.stack.items bs) }

pop_bytes-Keeps : (n : ℕ) → Keeps (pop_bytes n)
unfolding pop_bytes pop_multiple
pop_bytes-Keeps n = record {
  keeps = λ limit m b. ground (arith, length-take (length m.stack.items - n) m.stack.items);
}

stack_push-Keeps : (d : Datum) → Keeps (stack_push d)
unfolding stack_push
stack_push-Keeps d = search (bind-Keeps, push_bytes-Keeps)

stack_pop-Keeps : Keeps stack_pop
unfolding stack_pop
stack_pop-Keeps = search (bind-Keeps, pop_bytes-Keeps, pure-Keeps)

stack_top-Keeps : Keeps stack_top
unfolding stack_top top_at
stack_top-Keeps = record { keeps = λ limit m b. ground arith }

pop_pair-Keeps : Keeps pop_pair
unfolding pop_pair
pop_pair-Keeps = search (bind-Keeps, stack_pop-Keeps, pure-Keeps)

push_res-Keeps : (b : Bool) → Keeps (push_res b)
unfolding push_res
push_res-Keeps b = stack_push-Keeps _

ruleset keeps = (
  bind-Keeps, if-Keeps, pure-Keeps, throw-Keeps, get_memory-Keeps, pop_pair-Keeps, push_res-Keeps,
  stack_push-Keeps, stack_top-Keeps,
)

equal-Keeps : Keeps equal
unfolding equal
equal-Keeps = search keeps depth 8

not_equal-Keeps : Keeps not_equal
unfolding not_equal
not_equal-Keeps = search keeps depth 8

greater-Keeps : Keeps greater
unfolding greater
greater-Keeps = search keeps depth 8

greater_or_equal-Keeps : Keeps greater_or_equal
unfolding greater_or_equal
greater_or_equal-Keeps = search keeps depth 8

less-Keeps : Keeps less
unfolding less
less-Keeps = search keeps depth 8

less_or_equal-Keeps : Keeps less_or_equal
unfolding less_or_equal
less_or_equal-Keeps = search keeps depth 8

and-Keeps : Keeps and
unfolding and
and-Keeps = search keeps depth 8

or-Keeps : Keeps or
unfolding or
or-Keeps = search keeps depth 8

-- The data that a look at the top returns lie in the buffer, below the five bytes of the header.
pub stack_top_internal :
    (m : Machine) (bs : List ℕ)
    → (stack_top m).0 ≡ done (internal bs)
    → length bs + 5 ≤ length m.stack.items
unfolding stack_top top_at
stack_top_internal m bs h =
    let n : ℕ = length m.stack.items in
    let sz : ℕ = (header_at n m.stack.items).0 in
    ground (
      arith,
      length-take sz (drop (n - 5 - sz) m.stack.items),
      length-drop (n - 5 - sz) m.stack.items,
    )

invert-Bounded :
    (d : Datum) (limit : ℕ) (m : Machine)
    → Bounded limit m
    → ((bs : List ℕ) → d ≡ internal bs → length bs + 5 ≤ length m.stack.items)
    → Bounded limit (invert d m).1
unfolding invert
invert-Bounded (internal bs) limit m b h =
    let items : List ℕ = m.stack.items in
    let n : ℕ = length items in
    let low : List ℕ = take (n - 5 - length bs) items in
    let high : List ℕ = drop (n - 5) items in
    record {
      capacity = b.capacity;
      within = omega (
        arith,
        b.within,
        h bs refl,
        length-append (low ++ map complement bs) high,
        length-append low (map complement bs),
        length-map bs complement,
        length-take (n - 5 - length bs) items,
        length-drop (n - 5) items,
      );
    }
invert-Bounded (external n a) limit m b h = record { capacity = b.capacity; within = b.within }

not_op_at :
    (m : Machine) (r : Outcome Datum) (limit : ℕ)
    → (stack_top m).0 ≡ r
    → Bounded limit m
    → Bounded limit (resume (r, m) invert).1
not_op_at m (done d) limit e b =
    invert-Bounded d limit m b (λ bs i. stack_top_internal m bs (e ∙ ap done i))
not_op_at m (fail err) limit e b = b

pub stack_top_same : (m : Machine) → (stack_top m).1 ≡ m
unfolding stack_top top_at
stack_top_same m = ground arith

not_op-Keeps : Keeps not_op
unfolding not_op
not_op-Keeps = record {
  keeps = λ limit m b.
      let whole = not_op_at m (stack_top m).0 limit refl b in
      subst (λ x. Bounded limit (resume ((stack_top m).0, x) invert).1) (sym (stack_top_same m))
        whole;
}

-- Each handler of the predicates keeps the stack within its capacity.
pub predicate_fns-Keeps : All (λ fn. Keeps fn) predicate_fns
predicate_fns-Keeps = (
  equal-Keeps,
  (
    not_equal-Keeps,
    (
      greater-Keeps,
      (
        greater_or_equal-Keeps,
        (less-Keeps, (less_or_equal-Keeps, (and-Keeps, (or-Keeps, (not_op-Keeps, tt))))),
      ),
    ),
  ),
)

call-Keeps :
    (fns : List (M (Unit {0})))
    → All (λ fn. Keeps fn) fns
    → (i : ℕ) (o : Option (M (Unit {0}))) → get_elem? fns i ≡ o
    → Keeps (call o)
call-Keeps fns h i none e = throw-Keeps no_impl
call-Keeps fns h i (some fn) e = All-get_elem? (λ fn. Keeps fn) fns i fn h e

step-Keeps : (fns : List (M (Unit {0}))) (ip : ℕ) → All (λ fn. Keeps fn) fns → Keeps (step fns ip)
unfolding step
step-Keeps fns ip h =
    let call_at : (i : ℕ) → Keeps (call (get_elem? fns i)) =
      λ i. call-Keeps fns h i (get_elem? fns i) refl in
    search (keeps, call_at) depth 12

abbrev pub EndsBounded : ℕ → Ended → Type 0
EndsBounded limit none = Unit
EndsBounded limit (some (r, m)) = Bounded limit m

loop-Bounded :
    (limit : ℕ) (r : Outcome (Option ℕ) × Machine) (again : ℕ → Machine → Ended)
    → Bounded limit r.1
    → ((ip : ℕ) (m : Machine) → Bounded limit m → EndsBounded limit (again ip m))
    → EndsBounded limit (loop r again)
loop-Bounded limit (done (some next), m) again b h = h next m b
loop-Bounded limit (done none, m) again b h = b
loop-Bounded limit (fail e, m) again b h = b

-- Whatever bytes the program has, and wherever the interpreter stops, the stack holds at most as
-- many bytes as its capacity, which is what it was, if each handler keeps this.
pub run-Bounded :
    (fuel : ℕ) (fns : List (M (Unit {0}))) (ip limit : ℕ) (m : Machine)
    → All (λ fn. Keeps fn) fns
    → Bounded limit m
    → EndsBounded limit (run fuel fns ip m)
unfolding run
run-Bounded zero fns ip limit m h b = tt
run-Bounded (suc fuel) fns ip limit m h b =
    loop-Bounded limit (step fns ip m) (run fuel fns) ((step-Keeps fns ip h).keeps limit m b)
      (λ next m' b'. run-Bounded fuel fns next limit m' h b')

-- The machines that the interpreter has between two rounds, and after the one that ends it.
pub data Visits (fns : List (M (Unit {0}))) (m' : Machine) : ℕ → Machine → Type 0 where
  now : {ip : ℕ} → Visits fns m' ip m'
  after_step : {ip : ℕ} {m : Machine} → (step fns ip m).1 ≡ m' → Visits fns m' ip m
  goes :
      {ip next : ℕ} {m m₁ : Machine}
      → step fns ip m ≡ (done (some next), m₁)
      → Visits fns m' next m₁
      → Visits fns m' ip m

pub Visits-Bounded :
    (fns : List (M (Unit {0}))) (limit : ℕ) (m' : Machine) {ip : ℕ} {m : Machine}
    → All (λ fn. Keeps fn) fns
    → Bounded limit m
    → Visits fns m' ip m
    → Bounded limit m'
Visits-Bounded fns limit m' h b now = b
Visits-Bounded fns limit m' {ip} {m} h b (after_step e) =
    subst (Bounded limit) e ((step-Keeps fns ip h).keeps limit m b)
Visits-Bounded fns limit m' {ip} {m} h b (goes {m₁ = m₁} e v) =
    let b₁ = subst (Bounded limit) (ap (λ r. r.1) e) ((step-Keeps fns ip h).keeps limit m b) in
    Visits-Bounded fns limit m' h b₁ v

-- A program of predicates, whatever its bytes, keeps the stack within its capacity, if it is so at
-- the start: where the interpreter ends within the rounds of the fuel, and in every machine that it
-- has on the way, whether it ends or not.
pub run-predicate-Bounded :
    (fuel ip limit : ℕ) (m : Machine)
    → Bounded limit m
    → EndsBounded limit (run fuel predicate_fns ip m)
      × ((m' : Machine) → Visits predicate_fns m' ip m → Bounded limit m')
run-predicate-Bounded fuel ip limit m b = (
  run-Bounded fuel predicate_fns ip limit m predicate_fns-Keeps b,
  λ m' v. Visits-Bounded predicate_fns limit m' predicate_fns-Keeps b v,
)

-- ===== src/Topology/Numbered.antt =====
-- The new indices of `mdv_topology_linked_nodes` in mdv_platform/mdv_topology.c.
use medved_db.Base.{
  some, ℕ, zero, suc, ◌+◌, ◌-◌, ◌≤◌, ◌<◌, ◌≡◌, refl, ap, sym, ◌∙◌, List, [], ◌∷◌, false, arith,
  ◌==◌, if◌then◌else◌, get_elem?, length, Bool-cases, inl, inr,
}
use medved_db.Topology.{Toponode, number_nodes}

abbrev placed : (ℕ → ℕ) → ℕ → ℕ → ℕ → ℕ
placed node_idxs i n x = if x == i then n else node_idxs x

-- An index before the first one keeps its number.
number_before :
    (nodes : List Toponode) (i n : ℕ) (idxs : ℕ → ℕ) (x : ℕ)
    → x < i
    → (number_nodes i n nodes idxs).2 x ≡ idxs x
unfolding number_nodes
number_before [] i n idxs x lt = refl
number_before (node ∷ nodes) i n idxs x lt = elim (Bool-cases (idxs i == 0)) [
  | inl unused ↦
      rw (unused, number_nodes) (number_before nodes (i + 1) n idxs x (omega (arith, lt)))
  | inr used ↦
      let rest = number_before nodes (i + 1) (n + 1) (placed idxs i n) x (omega (arith, lt)) in
      rw (used, number_nodes) (rest ∙ ground (arith, lt))
]

-- A marked node is at its new index.
pub number_keeps :
    (nodes : List Toponode) (i n : ℕ) (idxs : ℕ → ℕ) (k : ℕ)
    → k < length nodes
    → (idxs (i + k) == 0) ≡ false
    → (n ≤ (number_nodes i n nodes idxs).2 (i + k))
      × (get_elem? (number_nodes i n nodes idxs).0 ((number_nodes i n nodes idxs).2 (i + k) - n)
          ≡ get_elem? nodes k)
unfolding number_nodes
number_keeps [] i n idxs k lt marked = absurd (omega (arith, lt))
number_keeps (node ∷ nodes) i n idxs zero lt marked =
    let at_i : i + 0 ≡ i = omega arith in
    let used : (idxs i == 0) ≡ false = ap (λ x. idxs x == 0) (sym at_i) ∙ marked in
    let number : (number_nodes (i + 1) (n + 1) nodes (placed idxs i n)).2 i ≡ n =
      number_before nodes (i + 1) (n + 1) (placed idxs i n) i (omega arith) ∙ ground arith in
    let none_left : n - n ≡ 0 = omega arith in
    rw (at_i, used, number_nodes, number, none_left) (omega arith, refl)
number_keeps (node ∷ nodes) i n idxs (suc k) lt marked =
    let next : i + suc k ≡ i + 1 + k = omega arith in
    let marked₁ : (idxs (i + 1 + k) == 0) ≡ false = ap (λ x. idxs x == 0) (sym next) ∙ marked in
    elim (Bool-cases (idxs i == 0)) [
      | inl unused ↦
          rw (next, unused, number_nodes)
            (number_keeps nodes (i + 1) n idxs k (omega (arith, lt)) marked₁)
      | inr used ↦
          let (above, stands) =
            number_keeps nodes (i + 1) (n + 1) (placed idxs i n) k (omega (arith, lt))
              (ground (arith, marked₁)) in
          let v : ℕ = (number_nodes (i + 1) (n + 1) nodes (placed idxs i n)).2 (i + 1 + k) in
          let one_more : v - n ≡ suc (v - (n + 1)) = omega (arith, above) in
          rw (next, used, number_nodes, one_more) (omega (arith, above), stands)
    ]

-- The node is in the array.
abbrev pub Occurs : List Toponode → Toponode → Type 0
Occurs nodes node = (j : ℕ) × (get_elem? nodes j ≡ some node)

behind :
    (node : Toponode) (nodes : List Toponode) (x : Toponode)
    → Occurs nodes x
    → Occurs (node ∷ nodes) x
behind node nodes x (j, h) = (suc j, h)

-- The new array has nodes of the old one.
pub number-Occurs :
    (nodes : List Toponode) (i n : ℕ) (idxs : ℕ → ℕ) (p : ℕ) (x : Toponode)
    → get_elem? (number_nodes i n nodes idxs).0 p ≡ some x
    → Occurs nodes x
unfolding number_nodes
number-Occurs [] i n idxs p x h = absurd (cc)
number-Occurs (node ∷ nodes) i n idxs p x h = elim (Bool-cases (idxs i == 0)) [
  | inl unused ↦
      behind node nodes x (number-Occurs nodes (i + 1) n idxs p x (rw (unused, number_nodes) at h))
  | inr used ↦ elim (Bool-cases (p == 0)) [
    | inl first ↦
        let at_first : p ≡ 0 = ground (arith, first) in (0, rw (used, number_nodes, at_first) at h)
    | inr after ↦
        let later : p ≡ suc (p - 1) = ground (arith, after) in
        behind node nodes x (
          number-Occurs nodes (i + 1) (n + 1) (placed idxs i n) (p - 1) x
            (rw (used, number_nodes, later) at h))
  ]
]

-- Each of the new nodes is a marked one.
pub number-marked :
    (nodes : List Toponode) (i n : ℕ) (idxs : ℕ → ℕ) (p : ℕ)
    → p < length (number_nodes i n nodes idxs).0
    → (k : ℕ) × (k < length nodes)
      × ((idxs (i + k) == 0) ≡ false)
      × ((number_nodes i n nodes idxs).2 (i + k) ≡ n + p)
unfolding number_nodes
number-marked [] i n idxs p lt = absurd (omega (arith, lt))
number-marked (node ∷ nodes) i n idxs p lt = elim (Bool-cases (idxs i == 0)) [
  | inl unused ↦
      let fewer : p < length (number_nodes (i + 1) n nodes idxs).0 =
        rw (unused, number_nodes) at lt in
      let (k, within, marked, number) = number-marked nodes (i + 1) n idxs p fewer in
      let next : i + suc k ≡ i + 1 + k = omega arith in
      rw (unused, number_nodes) (suc k, omega (arith, within), rw next marked, rw next number)
  | inr used ↦
      let number_i : (number_nodes (i + 1) (n + 1) nodes (placed idxs i n)).2 i ≡ n =
        number_before nodes (i + 1) (n + 1) (placed idxs i n) i (omega arith) ∙ ground arith in
      let fewer : p < suc (length (number_nodes (i + 1) (n + 1) nodes (placed idxs i n)).0) =
        rw (used, number_nodes) at lt in
      elim (Bool-cases (p == 0)) [
        | inl first ↦
            let at_i : i + 0 ≡ i = omega arith in
            let is_n : n ≡ n + p = ground (arith, first) in
            rw (used, number_nodes) (0, omega arith, rw at_i used, rw at_i (number_i ∙ is_n))
        | inr after ↦
            let (k, within, marked, number) =
              number-marked nodes (i + 1) (n + 1) (placed idxs i n) (p - 1)
                (ground (arith, fewer, after)) in
            let next : i + suc k ≡ i + 1 + k = omega arith in
            let is_p : n + 1 + (p - 1) ≡ n + p = ground (arith, after) in
            rw (used, number_nodes)
              (
                suc k,
                omega (arith, within),
                rw next (ground (arith, marked)),
                rw next (number ∙ is_p),
              )
      ]
]

-- The room for the addresses, each with its zero.
abbrev pub addr_size : List Toponode → ℕ
addr_size [] = 0
addr_size (node ∷ nodes) = length node.addr + 1 + addr_size nodes

pub number-size :
    (nodes : List Toponode) (i n : ℕ) (idxs : ℕ → ℕ)
    → (number_nodes i n nodes idxs).1 ≡ addr_size (number_nodes i n nodes idxs).0
unfolding number_nodes
number-size [] i n idxs = refl
number-size (node ∷ nodes) i n idxs = elim (Bool-cases (idxs i == 0)) [
  | inl unused ↦ rw (unused, number_nodes) (number-size nodes (i + 1) n idxs)
  | inr used ↦
      rw (used, number_nodes)
        (ap (λ m. length node.addr + 1 + m) (number-size nodes (i + 1) (n + 1) (placed idxs i n)))
]

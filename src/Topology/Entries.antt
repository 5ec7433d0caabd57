-- ===== src/Topology/Entries.antt =====
-- What the links of mdv_platform/mdv_topology.c say of the nodes, without their indices.
use mathlib.Core.Path.{subst}
use mathlib.Core.Option.{some-injective}
use medved_db.Base.{
  ℕ, zero, suc, ◌<◌, ◌≡◌, refl, ap, sym, ◌∙◌, List, [], ◌∷◌, ◌++◌, Bool, true, false, Option, some,
  arith, ◌||◌, get_elem?, length,
}
use medved_db.Hashmap.Refines.{is_some}
use medved_db.Topology.{Toponode, Topolink, Utopolink, both, link_nodes}
use medved_db.Topology.Linked.{Within, ends_of}
use medved_db.Topology.Kept.{joins, any_joins}

abbrev pub Entry : Type 0
Entry = Option Toponode × Option Toponode × ℕ

abbrev pub any_ends : Utopolink → List Entry → Bool
any_ends p [] = false
any_ends p (e ∷ es) = joins p (both e.0 e.1) || any_ends p es

pub any_joins-ends_of :
    (p : Utopolink) (nodes : List Toponode) (links : List Topolink)
    → any_joins p nodes links ≡ any_ends p (ends_of nodes links)
any_joins-ends_of p nodes [] = refl
any_joins-ends_of p nodes (link ∷ links) =
    ap (λ b. joins p (link_nodes nodes link) || b) (any_joins-ends_of p nodes links)

pub any_ends-append :
    (p : Utopolink) (es : List Entry) (e : Entry)
    → any_ends p (es ++ e ∷ []) ≡ (any_ends p es || joins p (both e.0 e.1))
any_ends-append p [] e = ground arith
any_ends-append p (x ∷ es) e = ground (arith, any_ends-append p es e)

ends_of-at :
    (nodes : List Toponode) (links : List Topolink) (j : ℕ) (link : Topolink)
    → get_elem? links j ≡ some link
    → get_elem? (ends_of nodes links) j
      ≡ some (get_elem? nodes link.node0, get_elem? nodes link.node1, link.weight)
ends_of-at nodes [] j link h = absurd (cc)
ends_of-at nodes (x ∷ links) zero link h =
    ap (λ (l : Topolink). some (get_elem? nodes l.node0, get_elem? nodes l.node1, l.weight))
      (some-injective _ _ h)
ends_of-at nodes (x ∷ links) (suc j) link h = ends_of-at nodes links j link h

some_at : (nodes : List Toponode) (j : ℕ) → is_some (get_elem? nodes j) ≡ true → j < length nodes
some_at [] j h = absurd (cc)
some_at (x ∷ nodes) zero h = omega arith
some_at (x ∷ nodes) (suc j) h = omega (arith, some_at nodes j h)

at_some : (nodes : List Toponode) (j : ℕ) → j < length nodes → is_some (get_elem? nodes j) ≡ true
at_some [] j h = absurd (omega (arith, h))
at_some (x ∷ nodes) zero h = refl
at_some (x ∷ nodes) (suc j) h = at_some nodes j (omega (arith, h))

ends_of-some :
    (nodes : List Toponode) (links : List Topolink) (j : ℕ) (e : Entry)
    → Within nodes links
    → get_elem? (ends_of nodes links) j ≡ some e
    → (is_some (e.0) ≡ true) × (is_some (e.1) ≡ true)
ends_of-some nodes [] j e within h = absurd (cc)
ends_of-some nodes (link ∷ links) zero e within h =
    let (lt0, lt1) = within 0 link refl in
    subst (λ (x : Entry). (is_some (x.0) ≡ true) × (is_some (x.1) ≡ true)) (some-injective _ _ h)
      (at_some nodes link.node0 lt0, at_some nodes link.node1 lt1)
ends_of-some nodes (link ∷ links) (suc j) e within h =
    ends_of-some nodes links j e (λ k l g. within (suc k) l g) h

-- Links with the same nodes are within them.
pub ends_of-Within :
    (nodes nodes₁ : List Toponode) (links links₁ : List Topolink)
    → ends_of nodes₁ links₁ ≡ ends_of nodes links
    → Within nodes links
    → Within nodes₁ links₁
ends_of-Within nodes nodes₁ links links₁ same within j link h =
    let at = sym (ap (λ es. get_elem? es j) same) ∙ ends_of-at nodes₁ links₁ j link h in
    let (first, second) =
      ends_of-some nodes links j
        (get_elem? nodes₁ link.node0, get_elem? nodes₁ link.node1, link.weight) within at in
    (some_at nodes₁ link.node0 first, some_at nodes₁ link.node1 second)

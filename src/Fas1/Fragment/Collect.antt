-- ===== src/Fas1/Fragment/Collect.antt =====
-- The collecting loop of `reassemblePacket` on fragments with distinct indices, in any order.
use fipwave.Common.{
  ℕ, ◌≡◌, ◌≢◌, refl, sym, ap, subst, subst₂, ◌∙◌, arith, List, [], ◌∷◌, ◌++◌, All, Option, none,
  some, ok, ◌==◌, if◌then◌else◌,
}
use fipwave.Common.Perms.{All-perm}
use fipwave.Fas1.{Fas1Unit}
use fipwave.Fas1.Fragment.{IndexMap, get_index, check_fragment, collect_fragments}
use mathlib.Core.List.{Permᴰ, append_assoc, append-nil}

-- The entries that a list of fragments makes.
abbrev pub entries : List Fas1Unit → IndexMap
entries [] = []
entries (u ∷ us) = (u.fragment_index, u) ∷ entries us

abbrev pub Fresh : ℕ → List Fas1Unit → Type 0
Fresh i = All (λ u. u.fragment_index ≢ i)

abbrev pub Distinct : List Fas1Unit → Type 0
Distinct [] = Unit
Distinct (u ∷ us) = Fresh u.fragment_index us × Distinct us

pub Distinct-perm : {xs ys : List Fas1Unit} → Permᴰ xs ys → Distinct xs → Distinct ys
Distinct-perm Permᴰ.nil h = tt
Distinct-perm (Permᴰ.cons {l₂ = ys} e d) h =
    (subst (λ (u : Fas1Unit). Fresh u.fragment_index ys) e (All-perm _ d h.0), Distinct-perm d h.1)
Distinct-perm (Permᴰ.swap {l = xs} e f) h =
    subst₂ (λ (u v : Fas1Unit). Distinct (u ∷ v ∷ xs)) f e
      ((λ q. h.0.0 (sym q), h.1.0), (h.0.1, h.1.1))
Distinct-perm (Permᴰ.trans d e) h = Distinct-perm e (Distinct-perm d h)

swap_lem :
    (i : ℕ) (a b : Fas1Unit) (xs : List Fas1Unit)
    → b.fragment_index ≢ a.fragment_index
    → get_index i (entries (a ∷ b ∷ xs)) ≡ get_index i (entries (b ∷ a ∷ xs))
unfolding get_index
swap_lem i a b xs ne = ground arith

-- With distinct indices the order of the entries does not matter to a lookup.
pub get_index-perm :
    (i : ℕ) {xs ys : List Fas1Unit}
    → Permᴰ xs ys
    → Distinct xs
    → get_index i (entries xs) ≡ get_index i (entries ys)
unfolding get_index
get_index-perm i Permᴰ.nil h = refl
get_index-perm i (Permᴰ.cons {a = a} {l₁ = xs} {l₂ = ys} e d) h =
    subst (λ (u : Fas1Unit). get_index i (entries (a ∷ xs)) ≡ get_index i (entries (u ∷ ys))) e
      (ap (λ (r : Option Fas1Unit). if a.fragment_index == i then some a else r)
        (get_index-perm i d h.1))
get_index-perm i (Permᴰ.swap {a = a} {b = b} {l = xs} e f) h =
    subst₂
      (λ (u v : Fas1Unit). get_index i (entries (a ∷ b ∷ xs)) ≡ get_index i (entries (u ∷ v ∷ xs)))
      f e (swap_lem i a b xs h.0.0)
get_index-perm i (Permᴰ.trans d e) h = get_index-perm i d h ∙ get_index-perm i e (Distinct-perm d h)

get_index-append :
    (i j : ℕ) (u : Fas1Unit) (m : IndexMap)
    → get_index i m ≡ none
    → j ≢ i
    → get_index i (m ++ (j, u) ∷ []) ≡ none
unfolding get_index
get_index-append i j u [] h ne = ground arith
get_index-append i j u ((k, v) ∷ m) h ne = ground (arith, get_index-append i j u m)

still_new :
    (us : List Fas1Unit) (m : IndexMap) (u : Fas1Unit)
    → All (λ v. get_index v.fragment_index m ≡ none) us
    → Fresh u.fragment_index us
    → All (λ v. get_index v.fragment_index (m ++ (u.fragment_index, u) ∷ []) ≡ none) us
still_new [] m u h f = tt
still_new (v ∷ vs) m u h f = (
  get_index-append v.fragment_index u.fragment_index u m h.0 (λ e. f.0 (sym e)),
  still_new vs m u h.1 f.1,
)

-- A fragment passes the checks whenever its index is new.
abbrev pub Passes : Fas1Unit → ℕ → ℕ → Fas1Unit → Type 0
Passes first p c u =
    (m : IndexMap) → get_index u.fragment_index m ≡ none → check_fragment first p c m u ≡ ok tt

module _ (first : Fas1Unit) (p c : ℕ) where
  pub collect_fragments-entries :
      (us : List Fas1Unit) (m : IndexMap)
      → All (Passes first p c) us
      → Distinct us
      → All (λ u. get_index u.fragment_index m ≡ none) us
      → collect_fragments first p c m us ≡ ok (m ++ entries us)
  unfolding collect_fragments
  collect_fragments-entries [] m h d n = ap ok (sym (append-nil m))
  collect_fragments-entries (u ∷ us) m h d n = rw (h.0 m n.0) (
      collect_fragments-entries us (m ++ (u.fragment_index, u) ∷ []) h.1 d.1
        (still_new us m u n.1 d.0)
      ∙ ap ok (append_assoc m ((u.fragment_index, u) ∷ []) (entries us)))

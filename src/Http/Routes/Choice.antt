-- ===== src/Http/Routes/Choice.antt =====
-- Which pattern `http.ServeMux` takes for a path.
use kd_server.Common.{
  ◌≡◌, refl, sym, inl, inr, true, false, Option, none, some, List, [], ◌∷◌, ◌++◌, Memᴰ, ltb, ◌==◌,
  ==_iff, Bool-cases, length, drop, All, ◌≤◌, arith, All-map, ◌≢◌,
}
use mathlib.Core.Path.{subst}
use kd_server.Text.{Text, has_prefix}
use kd_server.Http.Routes.{Pattern, fits, longer, best}

longer-Fitting :
    (path : Text) (p : Pattern) (ps : List Pattern) (o : Option Pattern) (q : Pattern)
    → fits p.0 path ≡ true
    → ((q : Pattern) → o ≡ some q → Memᴰ q ps × (fits q.0 path ≡ true))
    → longer p o ≡ some q
    → Memᴰ q (p ∷ ps) × (fits q.0 path ≡ true)
longer-Fitting path p ps none q here rest e =
    let one : p ≡ q = cc in
    (Memᴰ.head (sym one), subst (λ (x : Pattern). fits x.0 path ≡ true) one here)
longer-Fitting path p ps (some o) q here rest e =
    elim (Bool-cases (ltb (length o.0) (length p.0))) [
      | inl more ↦
          let one : p ≡ q = cc (more, e) in
          (Memᴰ.head (sym one), subst (λ (x : Pattern). fits x.0 path ≡ true) one here)
      | inr less ↦ let (m, fit) = rest q (cc (less, e)) in (Memᴰ.tail m, fit)
    ]

pub best-fits :
    (path : Text) (ps : List Pattern) (p : Pattern)
    → best path ps ≡ some p
    → Memᴰ p ps × (fits p.0 path ≡ true)
unfolding best
best-fits path [] p e = cc
best-fits path (q ∷ ps) p e = elim (Bool-cases (fits q.0 path)) [
  | inl here ↦ longer-Fitting path q ps (best path ps) p here (best-fits path ps) (cc (e, here))
  | inr not_here ↦ let (m, fit) = best-fits path ps p (cc (e, not_here)) in (Memᴰ.tail m, fit)
]

pub has_prefix-opened : (p s : Text) → has_prefix p s ≡ true → s ≡ p ++ drop (length p) s
unfolding has_prefix
has_prefix-opened [] s e = refl
has_prefix-opened (c ∷ p) [] e = cc
has_prefix-opened (c ∷ p) (d ∷ s) e = elim (Bool-cases (c == d)) [
  | inl one ↦
      let more : s ≡ p ++ drop (length p) s = has_prefix-opened p s (cc (one, e)) in
      let here : c ≡ d = (==_iff c d).0 one in λ i. sym here i ∷ more i
  | inr other ↦ cc (other, e)
]

-- No pattern that fits is longer.
abbrev pub Longest : Text → List Pattern → Text → Type 0
Longest path ps p = All (λ q. fits q.0 path ≡ true → length q.0 ≤ length p) ps

taken : (q : Pattern) (o : Option Pattern) → longer q o ≢ none
taken q none e = cc
taken q (some p) e = elim (Bool-cases (ltb (length p.0) (length q.0))) [
  | inl more ↦ cc (more, e)
  | inr less ↦ cc (less, e)
]

pub best-missing :
    (path : Text) (ps : List Pattern) → best path ps ≡ none → All (λ q. fits q.0 path ≡ false) ps
unfolding best
best-missing path [] e = tt
best-missing path (q ∷ ps) e = elim (Bool-cases (fits q.0 path)) [
  | inl here ↦ absurd (taken q (best path ps) (cc (e, here)))
  | inr not_here ↦ (not_here, best-missing path ps (cc (e, not_here)))
]

longer-Longest :
    (path : Text) (q : Pattern) (ps : List Pattern) (o : Option Pattern) (p : Pattern)
    → (o ≡ none → All (λ q. fits q.0 path ≡ false) ps)
    → ((p : Pattern) → o ≡ some p → Longest path ps p.0)
    → longer q o ≡ some p
    → Longest path (q ∷ ps) p.0
longer-Longest path q ps none p missing rest e =
    let one : q ≡ p = cc in
    subst (λ (x : Pattern). Longest path (q ∷ ps) x.0) one
      ((λ h. omega arith), All-map (λ x apart fit. cc (apart, fit)) ps (missing refl))
longer-Longest path q ps (some o) p missing rest e =
    elim (Bool-cases (ltb (length o.0) (length q.0))) [
      | inl more ↦
          let one : q ≡ p = cc (more, e) in
          let larger : length o.0 ≤ length q.0 = ground arith in
          subst (λ (x : Pattern). Longest path (q ∷ ps) x.0) one
            (
              (λ h. omega arith),
              All-map (λ x bound fit. omega (arith, bound fit, larger)) ps (rest o refl),
            )
      | inr less ↦
          let one : o ≡ p = cc (less, e) in
          let smaller : length q.0 ≤ length o.0 = ground arith in
          subst (λ (x : Pattern). Longest path (q ∷ ps) x.0) one ((λ h. smaller), rest o refl)
    ]

pub best-Longest :
    (path : Text) (ps : List Pattern) (p : Pattern) → best path ps ≡ some p → Longest path ps p.0
unfolding best
best-Longest path [] p e = tt
best-Longest path (q ∷ ps) p e = elim (Bool-cases (fits q.0 path)) [
  | inl here ↦
      longer-Longest path q ps (best path ps) p (best-missing path ps) (best-Longest path ps)
        (cc (e, here))
  | inr not_here ↦ ((λ fit. cc (not_here, fit)), best-Longest path ps p (cc (e, not_here)))
]

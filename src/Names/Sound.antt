-- ===== src/Names/Sound.antt =====
-- What ParseRole and SplitPreRequest accept.
use myrest.Prelude.{
  ◌<◌, ℕ, ◌≡◌, ◌≢◌, refl, sym, ap, ◌∙◌, subst, Bool, true, false, Option, none, some, List, [], ◌∷◌,
  ◌++◌, arith, ◌==◌, ok, All, Option-cases, Bool-cases, inl, inr, bind-eq-ok,
}
use myrest.Text.{Text, codes, onto_head, split, join}
use myrest.Prefer.Lines.{split-ne-nil}
use myrest.Names.{
  Role, cut_last, is_quotable_rune, all_quotable, check_quotable, role_of, check_host, check_role,
  parse_role, two_parts, split_pre_request,
}

-- The text does not hold the code point.
abbrev pub Lacks : ℕ → Text → Type 0
Lacks sep s = All (λ c. c ≢ sep) s

-- Not empty, and safe between quotes of any kind.
abbrev pub IsQuotable : Text → Type 0
IsQuotable s =
    (s ≢ [])
    × All (λ c. (c ≢ b'\'') × (c ≢ b'"') × (c ≢ b'`') × (c ≢ b'\\') × (31 < c) × (c ≢ 0x7f)) s

cut_last-none : (s : Text) (sep : ℕ) → cut_last s sep ≡ none → Lacks sep s
unfolding cut_last
cut_last-none [] sep h = tt
cut_last-none (c ∷ s) sep h = elim (Option-cases (cut_last s sep)) [
  | inl e ↦ (ground (arith, e), cut_last-none s sep e)
  | inr (p, e) ↦ absurd (ground (arith, e))
]

cut_last-some :
    (s : Text) (sep : ℕ) {front behind : Text}
    → cut_last s sep ≡ some (front, behind)
    → (s ≡ front ++ sep ∷ behind) × Lacks sep behind
unfolding cut_last
cut_last-some [] sep h = absurd (ground arith)
cut_last-some (c ∷ s) sep {front} {behind} h = elim (Option-cases (cut_last s sep)) [
  | inl e ↦ ground (arith, e, cut_last-none s sep e)
  | inr ((f, b), e) ↦ ground (arith, e, cut_last-some s sep {front = f} {behind = b} e)
]

all_quotable-All :
    (s : Text)
    → all_quotable s ≡ true
    → All (λ c. (c ≢ b'\'') × (c ≢ b'"') × (c ≢ b'`') × (c ≢ b'\\') × (31 < c) × (c ≢ 0x7f)) s
unfolding all_quotable is_quotable_rune
all_quotable-All [] h = tt
all_quotable-All (c ∷ s) h = (ground arith, all_quotable-All s (ground arith))

check_quotable-eq-ok : (is_host : Bool) (s : Text) → check_quotable is_host s ≡ ok tt → IsQuotable s
unfolding check_quotable
check_quotable-eq-ok is_host [] h = absurd (cc h)
check_quotable-eq-ok is_host (c ∷ s) h = elim (Bool-cases (all_quotable (c ∷ s))) [
  | inl e ↦ (cc, all_quotable-All (c ∷ s) e)
  | inr e ↦ absurd (ground (arith, e))
]

-- The role is spelled by its name, or by its name, an @ and its host, which holds no @.
abbrev pub Spells : Text → Role → Bool → Type 0
Spells value role false = (value ≡ role.name) × Lacks b'@' value
Spells value role true =
    (value ≡ role.name ++ b'@' ∷ role.host) × Lacks b'@' role.host × IsQuotable role.host

check_role-eq-ok :
    (value : Text) (found : Option (Text × Text)) {role : Role}
    → cut_last value b'@' ≡ found
    → check_role (role_of value found) ≡ ok role
    → IsQuotable role.name × Spells value role role.has_host
unfolding check_role check_host
check_role-eq-ok value none {role} e h =
    let (x, named, rest) = bind-eq-ok (check_quotable false value) _ h in
    let same : role_of value none ≡ role = cc rest in
    subst (λ r. IsQuotable r.name × Spells value r r.has_host) same
      (check_quotable-eq-ok false value named, (refl, cut_last-none value b'@' e))
check_role-eq-ok value (some (name, host)) {role} e h =
    let (x, named, rest) = bind-eq-ok (check_quotable false name) _ h in
    let (y, hosted, last) = bind-eq-ok (check_quotable true host) _ rest in
    let same : role_of value (some (name, host)) ≡ role = cc last in
    let (spelled, lacks) = cut_last-some value b'@' {front = name} {behind = host} e in
    subst (λ r. IsQuotable r.name × Spells value r r.has_host) same
      (
        check_quotable-eq-ok false name named,
        (spelled, lacks, check_quotable-eq-ok true host hosted),
      )

-- What ParseRole accepts is a name, or a name and a host behind the last @; both are not empty, and
-- hold no quote, no back quote, no backslash and no control character.
pub parse_role-eq-ok :
    (value : Text) {role : Role}
    → parse_role value ≡ ok role
    → IsQuotable role.name × Spells value role role.has_host
unfolding parse_role
parse_role-eq-ok value h = check_role-eq-ok value (cut_last value b'@') refl h

onto_head-Lacks :
    (sep c : ℕ) (ps : List Text) → c ≢ sep → All (Lacks sep) ps → All (Lacks sep) (onto_head c ps)
onto_head-Lacks sep c [] ne h = ((ne, tt), tt)
onto_head-Lacks sep c (p ∷ ps) ne h = ((ne, h.0), h.1)

split-Lacks : (s : Text) (sep : ℕ) → All (Lacks sep) (split s sep)
unfolding split
split-Lacks [] sep = (tt, tt)
split-Lacks (c ∷ s) sep = ground (arith, split-Lacks s sep, onto_head-Lacks sep c (split s sep))

join-onto_head :
    (c : ℕ) (ps : List Text) (sep : Text) → ps ≢ [] → join (onto_head c ps) sep ≡ c ∷ join ps sep
unfolding join
join-onto_head c [] sep ne = absurd (ne refl)
join-onto_head c (p ∷ []) sep ne = refl
join-onto_head c (p ∷ q ∷ ps) sep ne = refl

join-nil-cons :
    (ps : List Text) (sep : ℕ) → ps ≢ [] → join ([] ∷ ps) (sep ∷ []) ≡ sep ∷ join ps (sep ∷ [])
unfolding join
join-nil-cons [] sep ne = absurd (ne refl)
join-nil-cons (p ∷ ps) sep ne = refl

join-one : (p sep : Text) → join (p ∷ []) sep ≡ p
unfolding join
join-one p sep = refl

join-pair : (p q sep : Text) → join (p ∷ q ∷ []) sep ≡ p ++ (sep ++ q)
unfolding join
join-pair p q sep = refl

join-split : (s : Text) (sep : ℕ) → join (split s sep) (sep ∷ []) ≡ s
unfolding split
join-split [] sep = join-one [] (sep ∷ [])
join-split (c ∷ s) sep = elim (Bool-cases (c == sep)) [
  | inl e ↦ rw e (
      join-nil-cons (split s sep) sep (split-ne-nil s sep)
      ∙ ap (λ t. sep ∷ t) (join-split s sep)
      ∙ ap (λ k. k ∷ s) (ground (arith, e)))
  | inr e ↦ rw e (
      join-onto_head c (split s sep) (sep ∷ []) (split-ne-nil s sep)
      ∙ ap (λ t. c ∷ t) (join-split s sep))
]

two_parts-eq-ok :
    (parts : List Text) {found : Text × Text}
    → two_parts parts ≡ ok found
    → (parts ≡ found.0 ∷ found.1 ∷ []) × (found.0 ≢ []) × (found.1 ≢ [])
unfolding two_parts
two_parts-eq-ok ((c ∷ d) ∷ (e ∷ r) ∷ []) {found} h =
    let same : (c ∷ d, e ∷ r) ≡ found = cc h in
    subst (λ f. ((c ∷ d) ∷ (e ∷ r) ∷ [] ≡ f.0 ∷ f.1 ∷ []) × (f.0 ≢ []) × (f.1 ≢ [])) same
      (refl, cc, cc)
two_parts-eq-ok _ h = absurd (cc h)

-- What SplitPreRequest accepts is the database and the routine around one dot; neither is empty or
-- holds a dot.
pub split_pre_request-eq-ok :
    (name : Text) {found : Text × Text}
    → split_pre_request name ≡ ok found
    → (name ≡ found.0 ++ b'.' ∷ found.1)
      × (found.0 ≢ [])
      × (found.1 ≢ [])
      × Lacks b'.' found.0
      × Lacks b'.' found.1
unfolding split_pre_request
split_pre_request-eq-ok name {found} h =
    let (parts, ne, ne') = two_parts-eq-ok (split name b'.') h in
    let lacks = subst (All (Lacks b'.')) parts (split-Lacks name b'.') in
    (
      sym (join-split name b'.')
          ∙ ap (λ ps. join ps (codes ".")) parts
          ∙ join-pair found.0 found.1 (codes "."),
      ne,
      ne',
      lacks.0,
      lacks.1.0,
    )

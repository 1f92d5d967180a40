-- ===== src/Sql/Marks/Clauses.antt =====
-- The placeholders of clauses, one for each argument.
use myrest.Prelude.{
  ℕ, ◌+◌, ◌≡◌, refl, sym, subst, Bool, List, [], ◌∷◌, ◌++◌, arith, if◌then◌else◌, length,
  length-append, All, AllOk, AllOk-bind, if-both,
}
use myrest.Text.{Text, codes, join}
use myrest.Text.Unicode.{Unicode}
use myrest.ReadQuery.Query.{Filter, Group, group, Groups, end, also, Query}
use myrest.Schema.{Table}
use myrest.Sql.Failure.{Arg}
use myrest.Sql.Filter.{Condition, filter_sql}
use myrest.Sql.Where.{
  Clause, add_part, add_group_part, join_clause, close_parts, close_all, filters_sql, group_sql,
  groups_sql, build_where,
}
use myrest.Sql.Marks.{Marked, Marked-nil, Marked-before, Marked-after, Marked-append}
use myrest.Sql.Marks.Pieces.{Marked-literal, plain_text}
use myrest.Sql.Marks.Conditions.{Fits, SafeFilter, filter_sql-Fits}

-- The parts hold `n` placeholders together.
pub data PartsMarked : ℕ → List Text → Type 0 where
  nil : PartsMarked 0 []
  cons :
      {m n k : ℕ} {p : Text} {ps : List Text}
      → Marked m p
      → PartsMarked n ps
      → k ≡ m + n
      → PartsMarked k (p ∷ ps)

pub PartsMarked-append :
    (ps qs : List Text) {m n k : ℕ}
    → PartsMarked m ps
    → PartsMarked n qs
    → k ≡ m + n
    → PartsMarked k (ps ++ qs)
PartsMarked-append [] qs nil b e = subst (λ k. PartsMarked k qs) (omega arith) b
PartsMarked-append (p ∷ ps) qs (cons h a d) b e =
    cons h (PartsMarked-append ps qs a b refl) (omega arith)

pub join-Marked :
    {n : ℕ} (ps : List Text) (sep : Text) → Marked 0 sep → PartsMarked n ps → Marked n (join ps sep)
unfolding join
join-Marked ps sep s nil = Marked-nil
join-Marked (p ∷ []) sep s (cons h nil e) = subst (λ k. Marked k p) (omega arith) h
join-Marked (p ∷ q ∷ ps) sep s (cons h t e) =
    subst (λ k. Marked k (join (p ∷ q ∷ ps) sep)) (sym e)
      (Marked-append p _ h (Marked-before sep _ s (join-Marked (q ∷ ps) sep s t)))

-- The parts of a clause have one placeholder for each argument.
abbrev pub ClauseFits : Clause → Type 0
ClauseFits c = PartsMarked (length c.args) c.parts

add_part-ClauseFits :
    (condition : Condition) (c : Clause)
    → Fits condition
    → ClauseFits c
    → ClauseFits (add_part condition c)
add_part-ClauseFits (sql, args) c h k = cons h k (length-append args c.args)

add_group_part-ClauseFits :
    (condition : Condition) (c : Clause)
    → Fits condition
    → ClauseFits c
    → ClauseFits (add_group_part condition c)
unfolding add_group_part
add_group_part-ClauseFits ([], args) c h k = k
add_group_part-ClauseFits (ch ∷ sql, args) c h k = add_part-ClauseFits (ch ∷ sql, args) c h k

join_clause-ClauseFits : (c d : Clause) → ClauseFits c → ClauseFits d → ClauseFits (join_clause c d)
join_clause-ClauseFits c d h k =
    PartsMarked-append c.parts d.parts h k (length-append c.args d.args)

close_parts-Fits :
    (is_or negated : Bool) (parts : List Text) (args : List Arg)
    → PartsMarked (length args) parts
    → Fits (close_parts is_or negated parts args)
unfolding close_parts plain_text
close_parts-Fits is_or negated [] args h = Marked-nil
close_parts-Fits is_or negated (p ∷ ps) args h =
    if-both (Marked (length args)) negated
      (Marked-before (codes "NOT ") _ (Marked-literal (codes "NOT ") refl) inner) inner
  where
    sep : Text
    sep = if is_or then codes " OR " else codes " AND "

    sep-Marked : Marked 0 sep
    sep-Marked =
        if-both (Marked 0) is_or (Marked-literal (codes " OR ") refl)
          (Marked-literal (codes " AND ") refl)

    inner : Marked (length args) (codes "(" ++ (join (p ∷ ps) sep ++ codes ")"))
    inner = Marked-before (codes "(") _ (Marked-literal (codes "(") refl) (
        Marked-after (join (p ∷ ps) sep) (codes ")") (join-Marked (p ∷ ps) sep sep-Marked h)
          (Marked-literal (codes ")") refl))

close_all-Fits :
    (parts : List Text) (args : List Arg)
    → PartsMarked (length args) parts
    → Fits (close_all parts args)
unfolding close_all plain_text
close_all-Fits [] args h = Marked-nil
close_all-Fits (p ∷ ps) args h =
    join-Marked (p ∷ ps) (codes " AND ") (Marked-literal (codes " AND ") refl) h

abbrev mutual
  pub SafeGroup : Group → Type 0
  SafeGroup (group is_or filters groups negated) = All SafeFilter filters × SafeGroups groups

  pub SafeGroups : Groups → Type 0
  SafeGroups end = Unit
  SafeGroups (also g gs) = SafeGroup g × SafeGroups gs

module _ ⦃u : Unicode⦄ where
  filters_sql-ClauseFits :
      (table : Table) (filters : List Filter)
      → All SafeFilter filters
      → AllOk ClauseFits (filters_sql table filters)
  unfolding filters_sql
  filters_sql-ClauseFits table [] s = nil
  filters_sql-ClauseFits table (filter ∷ filters) s =
      AllOk-bind Fits ClauseFits (filter_sql table filter) _ (filter_sql-Fits table filter s.0)
        (λ condition h.
          AllOk-bind ClauseFits ClauseFits (filters_sql table filters) _
            (filters_sql-ClauseFits table filters s.1)
            (λ rest k. add_part-ClauseFits condition rest h k))

  mutual
    unfolding group_sql

    pub group_sql-Fits : (table : Table) (g : Group) → SafeGroup g → AllOk Fits (group_sql table g)
    group_sql-Fits table (group is_or filters groups negated) s =
        AllOk-bind ClauseFits Fits (filters_sql table filters) _
          (filters_sql-ClauseFits table filters s.0)
          (λ c h.
            AllOk-bind ClauseFits Fits (groups_sql table groups) _
              (groups_sql-ClauseFits table groups s.1)
              (λ d k.
                close_parts-Fits is_or negated (c.parts ++ d.parts) (c.args ++ d.args)
                  (join_clause-ClauseFits c d h k)))

    pub groups_sql-ClauseFits :
        (table : Table) (gs : Groups) → SafeGroups gs → AllOk ClauseFits (groups_sql table gs)
    groups_sql-ClauseFits table end s = nil
    groups_sql-ClauseFits table (also g gs) s =
        AllOk-bind Fits ClauseFits (group_sql table g) _ (group_sql-Fits table g s.0)
          (λ condition h.
            AllOk-bind ClauseFits ClauseFits (groups_sql table gs) _
              (groups_sql-ClauseFits table gs s.1)
              (λ rest k. add_group_part-ClauseFits condition rest h k))

  pub build_where-Fits :
      (table : Table) (query : Query)
      → All SafeFilter query.filters
      → SafeGroups query.groups
      → AllOk Fits (build_where table query)
  unfolding build_where
  build_where-Fits table query s r =
      AllOk-bind ClauseFits Fits (filters_sql table query.filters) _
        (filters_sql-ClauseFits table query.filters s)
        (λ c h.
          AllOk-bind ClauseFits Fits (groups_sql table query.groups) _
            (groups_sql-ClauseFits table query.groups r)
            (λ d k.
              close_all-Fits (c.parts ++ d.parts) (c.args ++ d.args)
                (join_clause-ClauseFits c d h k)))

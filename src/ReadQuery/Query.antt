-- ===== src/ReadQuery/Query.antt =====
-- internal/readquery/query.go and json_path.go: the data of one ordinary read. An embed holds
-- embeds and a group holds groups, so the lists of these are declared beside them. A nil pointer
-- is `none`; a uint64 is a number, whose range is stated where it matters.
use myrest.Prelude.{ℕ, Bool, false, ◌||◌, Option, none, some, List, [], ◌∷◌, ltb, if◌then◌else◌}
use myrest.Text.{Text, codes}

pub data PathStep : Type 0 where
  key : Text → PathStep
  index : ℕ → PathStep

pub record JsonPath : Type 0 where
  pub steps : List PathStep
  pub as_text : Bool

pub data Aggregate : Type 0 where
  agg_avg agg_count agg_max agg_min agg_sum : Aggregate

unfoldable pub agg_text : Aggregate → Text
agg_text agg_avg = codes "avg"
agg_text agg_count = codes "count"
agg_text agg_max = codes "max"
agg_text agg_min = codes "min"
agg_text agg_sum = codes "sum"

abbrev pub full_match_aggregates : List Aggregate
full_match_aggregates = agg_avg ∷ agg_count ∷ agg_max ∷ agg_min ∷ agg_sum ∷ []

pub record Column : Type 0 where
  pub name : Text
  pub alias : Text
  pub path : Option JsonPath
  pub agg : Option Aggregate
  pub star : Bool

unfoldable pub has_star : List Column → Bool
has_star [] = false
has_star (column ∷ columns) = column.star || has_star columns

-- type Operator string, with its constants as the constructors.
pub data Operator : Type 0 where
  op_eq op_neq op_gt op_gte op_lt op_lte : Operator
  op_like op_ilike op_in op_is op_is_distinct : Operator

unfoldable pub op_text : Operator → Text
op_text op_eq = codes "eq"
op_text op_neq = codes "neq"
op_text op_gt = codes "gt"
op_text op_gte = codes "gte"
op_text op_lt = codes "lt"
op_text op_lte = codes "lte"
op_text op_like = codes "like"
op_text op_ilike = codes "ilike"
op_text op_in = codes "in"
op_text op_is = codes "is"
op_text op_is_distinct = codes "isdistinct"

abbrev pub full_match_operators : List Operator
full_match_operators =
    op_eq ∷ op_neq ∷ op_gt ∷ op_gte ∷ op_lt ∷ op_lte ∷ op_like ∷ op_in ∷ op_is ∷ op_is_distinct ∷ []

abbrev pub partial_match_operators : List Operator
partial_match_operators = op_ilike ∷ []

pub record Filter : Type 0 where
  pub column : Text
  pub path : Option JsonPath
  pub op : Operator
  pub value : Text
  pub values : List Text
  pub negated : Bool
  pub value_quoted : Bool

-- A group's fields in the order Or, Filters, Groups, Negated.
mutual
  pub data Group : Type 0 where
    group : Bool → List Filter → Groups → Bool → Group

  pub data Groups : Type 0 where
    end : Groups
    also : Group → Groups → Groups

pub record Order : Type 0 where
  pub column : Text
  pub path : Option JsonPath
  pub desc : Bool

-- The fields of an embed but its nested embeds.
pub record EmbedFields : Type 0 where
  pub resource : Text
  pub alias : Text
  pub hint : Text
  pub spread : Bool
  pub columns : List Column
  pub filters : List Filter
  pub groups : Groups
  pub order : List Order
  pub limit : Option ℕ
  pub offset : ℕ

mutual
  pub data Embed : Type 0 where
    embed : EmbedFields → Embeds → Embed

  pub data Embeds : Type 0 where
    done : Embeds
    more : Embed → Embeds → Embeds

-- Embed.Key.
unfoldable pub embed_key : Embed → Text
embed_key (embed e nested) = elim e.alias [ [] ↦ e.resource | _ ↦ e.alias ]

pub record Query : Type 0 where
  pub columns : List Column
  pub embeds : Embeds
  pub filters : List Filter
  pub groups : Groups
  pub order : List Order
  pub limit : Option ℕ
  pub offset : ℕ
  pub exact_count : Bool
  pub select_all : Bool
  pub max_rows : Option ℕ

-- Query{}.
abbrev pub zero_query : Query
zero_query = record {
  columns = [];
  embeds = done;
  filters = [];
  groups = end;
  order = [];
  limit = none;
  offset = 0;
  exact_count = false;
  select_all = false;
  max_rows = none;
}

unfoldable pub effective_limit_of : Option ℕ → Option ℕ → Option ℕ
effective_limit_of none none = none
effective_limit_of none (some cap) = some cap
effective_limit_of (some limit) none = some limit
effective_limit_of (some limit) (some cap) = if ltb limit cap then some limit else some cap

-- Query.EffectiveLimit.
unfoldable pub effective_limit : Query → Option ℕ
unfolding effective_limit_of
effective_limit q = effective_limit_of q.limit q.max_rows

-- append(query.Groups, group).
unfoldable pub append_group : Groups → Group → Groups
append_group end g = also g end
append_group (also h gs) g = also h (append_group gs g)

unfoldable pub append_embed : Embeds → Embed → Embeds
append_embed done e = more e done
append_embed (more f es) e = more f (append_embed es e)

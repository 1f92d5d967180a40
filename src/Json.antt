-- ===== src/Json.antt =====
-- The values that encoding/json decodes with UseNumber, as the bodies of writes are read, and their
-- text as json.Marshal writes it. A number keeps its literal; the keys of an object are distinct.
use myrest.Prelude.{
  ℕ, ◌+◌, ◌-◌, ◌/◌, ◌%◌, Bool, ◌||◌, List, [], ◌∷◌, ◌++◌, ltb, ◌==◌, if◌then◌else◌,
}
use myrest.Text.{Text, codes}
use myrest.ReadQuery.Parse.{text_less}

mutual
  pub data Value : Type 0 where
    null : Value
    boolean : Bool → Value
    number : Text → Value
    string : Text → Value
    array : Values → Value
    object : Fields → Value

  pub data Values : Type 0 where
    end : Values
    item : Value → Values → Values

  pub data Fields : Type 0 where
    no_fields : Fields
    field : Text → Value → Fields → Fields

unfoldable pub hex_digit : ℕ → ℕ
hex_digit n = if ltb n 10 then b'0' + n else b'a' + (n - 10)

-- One rune of a string, with the HTML escapes of json.Marshal.
unfoldable pub escape_rune : ℕ → Text
unfolding hex_digit
escape_rune c =
    if c == b'"' || c == b'\\'
    then b'\\' ∷ c ∷ []
    else if c == 8
    then codes "\\b"
    else if c == 12
    then codes "\\f"
    else if c == 10
    then codes "\\n"
    else if c == 13
    then codes "\\r"
    else if c == 9
    then codes "\\t"
    else if ltb c b' ' || c == b'<' || c == b'>' || c == b'&'
    then codes "\\u00" ++ (hex_digit (c / 16) ∷ hex_digit (c % 16) ∷ [])
    else if c == 0x2028 || c == 0x2029
    then codes "\\u202" ++ (hex_digit (c % 16) ∷ [])
    else c ∷ []

unfoldable pub escape_string : Text → Text
unfolding escape_rune
escape_string [] = []
escape_string (c ∷ s) = escape_rune c ++ escape_string s

unfoldable pub quote_string : Text → Text
unfolding escape_string
quote_string s = b'"' ∷ (escape_string s ++ codes "\"")

-- The members of an object, sorted by key.
unfoldable pub insert_member : Text → Text → List (Text × Text) → List (Text × Text)
unfolding text_less
insert_member key value [] = (key, value) ∷ []
insert_member key value ((k, v) ∷ members) =
    let rest = insert_member key value members in
    if text_less k key then (k, v) ∷ rest else (key, value) ∷ (k, v) ∷ members

unfoldable pub members_text : List (Text × Text) → Text
unfolding quote_string
members_text [] = []
members_text ((k, v) ∷ []) = quote_string k ++ (codes ":" ++ v)
members_text ((k, v) ∷ m ∷ members) =
    quote_string k ++ (codes ":" ++ (v ++ (codes "," ++ members_text (m ∷ members))))

unfoldable mutual
  unfolding quote_string insert_member members_text

  pub marshal : Value → Text
  marshal null = codes "null"
  marshal (boolean b) = if b then codes "true" else codes "false"
  marshal (number literal) = literal
  marshal (string s) = quote_string s
  marshal (array values) = b'[' ∷ (marshal_items values ++ codes "]")
  marshal (object fields) = b'{' ∷ (members_text (marshal_members fields) ++ codes "}")

  pub marshal_items : Values → Text
  marshal_items end = []
  marshal_items (item v end) = marshal v
  marshal_items (item v (item w values)) = marshal v ++ (codes "," ++ marshal_items (item w values))

  pub marshal_members : Fields → List (Text × Text)
  marshal_members no_fields = []
  marshal_members (field k v fields) = insert_member k (marshal v) (marshal_members fields)

-- ===== src/Prefer/Unknown.antt =====
-- A token whose name is unknown is collected as invalid, whatever stands around it.
use myrest.Prelude.{
  ◌≡◌, ◌≢◌, inl, inr, refl, subst, Bool, false, not, ◌||◌, List, [], ◌∷◌, if-both, Among,
  Among-append_left, Among-append_last,
}
use myrest.Text.{Text, codes, equal, cut, split, trim_space}
use myrest.Text.Unicode.{Unicode, to_lower}
use myrest.Prefer.{
  is_one_of, known_names, auth_names, Collected, halves, is_empty, collect_token, collect_trimmed,
  collect_parts, collect_from,
}

module _ (raw : Text) where
  abbrev pub HasRaw : Collected → Type 0
  HasRaw c = Among raw c.invalid

  module _ ⦃u : Unicode⦄ where
    collect_token-HasRaw :
        (c : Collected) (name value : Text) (has_value : Bool) (token : Text)
        → HasRaw c
        → HasRaw (collect_token c name value has_value token)
    unfolding collect_token
    collect_token-HasRaw c name value has_value token h =
        let added = Among-append_left raw c.invalid (token ∷ []) h in
        if-both HasRaw (not (is_one_of known_names name)) added (
          if-both HasRaw (is_one_of auth_names name) h (
            if-both HasRaw (equal name (codes "all-rows")) (if-both HasRaw has_value added h)
              (if-both HasRaw (not has_value || is_empty value) added h)))

    collect_trimmed-HasRaw :
        (c : Collected) (token : Text) → HasRaw c → HasRaw (collect_trimmed c token)
    unfolding collect_trimmed
    collect_trimmed-HasRaw c [] h = h
    collect_trimmed-HasRaw c (ch ∷ s) h = collect_token-HasRaw c _ _ _ (ch ∷ s) h

    collect_parts-HasRaw :
        (parts : List Text) (c : Collected) → HasRaw c → HasRaw (collect_parts c parts)
    unfolding collect_parts
    collect_parts-HasRaw [] c h = h
    collect_parts-HasRaw (part ∷ parts) c h =
        collect_parts-HasRaw parts _ (collect_trimmed-HasRaw c (trim_space part) h)

    collect_from-HasRaw :
        (headers : List Text) (c : Collected) → HasRaw c → HasRaw (collect_from c headers)
    unfolding collect_from
    collect_from-HasRaw [] c h = h
    collect_from-HasRaw (header ∷ headers) c h =
        collect_from-HasRaw headers _ (collect_parts-HasRaw (split header b',') c h)

module _ ⦃u : Unicode⦄ where
  -- The name that a token has in the collected tokens.
  abbrev pub token_name : Text → Text
  token_name token = to_lower (trim_space (halves token (cut token b'=')).0)

  -- The token is not empty, and its name is none of the known ones.
  abbrev pub IsUnknown : Text → Type 0
  IsUnknown token = (token ≢ []) × (is_one_of known_names (token_name token) ≡ false)

  collect_trimmed-unknown :
      (c : Collected) (token : Text) → IsUnknown token → HasRaw token (collect_trimmed c token)
  unfolding collect_trimmed collect_token
  collect_trimmed-unknown c [] h = absurd (h.0 refl)
  collect_trimmed-unknown c (ch ∷ s) h = rw (h.1) (Among-append_last (ch ∷ s) c.invalid)

  collect_parts-unknown :
      (parts : List Text) (c : Collected) (part : Text)
      → Among part parts
      → IsUnknown (trim_space part)
      → HasRaw (trim_space part) (collect_parts c parts)
  unfolding collect_parts
  collect_parts-unknown [] c part h k = elim h [ ]
  collect_parts-unknown (p ∷ parts) c part (inl e) k =
      collect_parts-HasRaw (trim_space part) parts _ (
        subst (λ t. HasRaw (trim_space part) (collect_trimmed c (trim_space t))) e
          (collect_trimmed-unknown c (trim_space part) k))
  collect_parts-unknown (p ∷ parts) c part (inr h) k = collect_parts-unknown parts _ part h k

  pub collect_from-unknown :
      (headers : List Text) (c : Collected) (header part : Text)
      → Among header headers
      → Among part (split header b',')
      → IsUnknown (trim_space part)
      → HasRaw (trim_space part) (collect_from c headers)
  unfolding collect_from
  collect_from-unknown [] c header part g h k = elim g [ ]
  collect_from-unknown (x ∷ headers) c header part (inl e) h k =
      collect_from-HasRaw (trim_space part) headers _ (
        subst (λ t. HasRaw (trim_space part) (collect_parts c (split t b','))) e
          (collect_parts-unknown (split header b',') c part h k))
  collect_from-unknown (x ∷ headers) c header part (inr g) h k =
      collect_from-unknown headers _ header part g h k

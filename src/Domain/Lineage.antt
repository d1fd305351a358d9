-- ===== src/Domain/Lineage.antt =====
-- The version fields of SnapshotLineage in src/astock_lens/domain/models.py: `",".join`, and
-- `_versions`, which splits at the commas, strips the parts and drops the empty ones.
use Prim.Native.Char.{Char, code}
use Prim.Native.String.{◌++◌ as text_append}
use Prim.Native.String.append
use a_stock_lens.Base.{
  ◌≡◌, refl, ap, ◌∙◌, Bool, true, false, not, ◌&&◌, Option, none, some, List, [], ◌∷◌, String, map,
  keep, All, ◌==◌, is_space, arith, if◌then◌else◌,
}
use a_stock_lens.Domain.Records.{SnapshotLineage}

abbrev comma : Char
comma = ","

abbrev is_comma : Char → Bool
is_comma c = code c == b','

-- `",".join(parts)`
unfoldable pub join_commas : List String → String
join_commas [] = ""
join_commas (s ∷ []) = s
join_commas (s ∷ t ∷ rest) = text_append s (String.◌∷◌ comma (join_commas (t ∷ rest)))

abbrev onto_first : Char → List String → List String
onto_first c [] = String.◌∷◌ c String.[] ∷ []
onto_first c (s ∷ ss) = String.◌∷◌ c s ∷ ss

-- `declared.split(",")`
unfoldable pub split_commas : String → List String
split_commas String.[] = String.[] ∷ []
split_commas (String.◌∷◌ c s) =
    if is_comma c then String.[] ∷ split_commas s else onto_first c (split_commas s)

unfoldable pub strip_left : String → String
strip_left String.[] = String.[]
strip_left (String.◌∷◌ c s) = if is_space (code c) then strip_left s else String.◌∷◌ c s

abbrev strip_last : Char → String → String
strip_last c String.[] = if is_space (code c) then String.[] else String.◌∷◌ c String.[]
strip_last c (String.◌∷◌ d s) = String.◌∷◌ c (String.◌∷◌ d s)

unfoldable pub strip_right : String → String
strip_right String.[] = String.[]
strip_right (String.◌∷◌ c s) = strip_last c (strip_right s)

-- `item.strip()`
unfoldable pub strip : String → String
unfolding strip_left strip_right
strip s = strip_right (strip_left s)

abbrev pub is_empty : String → Bool
is_empty String.[] = true
is_empty (String.◌∷◌ c s) = false

-- The set that `_versions` returns, as a list.
unfoldable pub versions : Option String → List String
unfolding split_commas strip
versions none = []
versions (some declared) = keep (λ part. not (is_empty part)) (map strip (split_commas declared))

unfoldable pub strategy_versions : SnapshotLineage → List String
strategy_versions lineage = versions lineage.strategy_version

abbrev no_comma : String → Bool
no_comma String.[] = true
no_comma (String.◌∷◌ c s) = not (is_comma c) && no_comma s

-- A version that can be read back: not empty, with no comma in it and no space around it.
pub record IsVersion (s : String) : Type 0 where
  pub plain : no_comma s ≡ true
  pub stripped : strip s ≡ s
  pub filled : is_empty s ≡ false

split_commas-append :
    (s t : String)
    → no_comma s ≡ true
    → split_commas (text_append s (String.◌∷◌ comma t)) ≡ s ∷ split_commas t
unfolding split_commas
split_commas-append String.[] t h = rw (append.nil (String.◌∷◌ comma t))
split_commas-append (String.◌∷◌ c s) t h =
    rw (append.cons c s (String.◌∷◌ comma t)) (ground (arith, split_commas-append s t))

split_commas_plain : (s : String) → no_comma s ≡ true → split_commas s ≡ s ∷ []
unfolding split_commas
split_commas_plain String.[] h = refl
split_commas_plain (String.◌∷◌ c s) h = ground (arith, split_commas_plain s)

split_commas-join_commas :
    (v : String) (vs : List String)
    → All IsVersion (v ∷ vs)
    → split_commas (join_commas (v ∷ vs)) ≡ v ∷ vs
unfolding join_commas
split_commas-join_commas v [] h = split_commas_plain v (h.0).plain
split_commas-join_commas v (w ∷ ws) h =
    split_commas-append v (join_commas (w ∷ ws)) (h.0).plain
    ∙ ap (◌∷◌ v) (split_commas-join_commas w ws h.1)

keep_versions :
    (vs : List String) → All IsVersion vs → keep (λ part. not (is_empty part)) (map strip vs) ≡ vs
keep_versions [] h = refl
keep_versions (v ∷ vs) h = rw ((h.0).stripped, (h.0).filled) (ap (◌∷◌ v) (keep_versions vs h.1))

-- The versions that a lineage field joins are those that are read back from it, in their order, if
-- there is at least one and each is a proper version.
versions-join_commas :
    (v : String) (vs : List String)
    → All IsVersion (v ∷ vs)
    → versions (some (join_commas (v ∷ vs))) ≡ v ∷ vs
unfolding versions
versions-join_commas v vs h = rw (split_commas-join_commas v vs h) (keep_versions (v ∷ vs) h)

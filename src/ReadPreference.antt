-- ===== src/ReadPreference.antt =====
-- lib/topologies/read_preference.js: read preferences. A tag set is an object of texts. Arguments of the
-- constructor that the deprecated forms allow (an object in the place of the tags) are not modelled.
use mongodb_core.Errors.{Result, ok, throw, type_error, new_error}
use mongodb_core.Prelude.{
  ℕ, String, Bool, true, false, Option, none, some, List, [], ◌∷◌, ◌==◌, if◌then◌else◌, Dict,
}
use mongodb_core.Prelude.Int.{ℤ, pos, negsuc}

-- The five modes, the three other values of `VALID_MODES`, and any other text.
pub data Mode : Type 0 where
  primary primary_preferred secondary secondary_preferred nearest : Mode
  true_mode false_mode null_mode : Mode
  other_mode : String → Mode

pub record ReadPreference : Type 0 where
  pub mode : Mode
  pub tags : Option (List (Dict String))
  pub max_staleness_seconds : Option ℤ
  pub min_wire_version : Option ℕ

abbrev pub is_positive : ℤ → Bool
is_positive (pos n) = if n == 0 then false else true
is_positive (negsuc n) = false

abbrev no_tags : Option (List (Dict String)) → Bool
no_tags none = true
no_tags (some []) = true
no_tags (some (t ∷ ts)) = false

-- `this.mode === ReadPreference.PRIMARY || this.mode === true`
abbrev is_primary_mode : Mode → Bool
is_primary_mode primary = true
is_primary_mode true_mode = true
is_primary_mode _ = false

-- The checks at the end of the constructor.
check_primary : ReadPreference → Result ReadPreference
check_primary r =
    if is_primary_mode r.mode
    then if no_tags r.tags
      then elim r.max_staleness_seconds [
        | none ↦ ok r
        | some s ↦ throw (
            new_error type_error
              "Primary read preference cannot be combined with maxStalenessSeconds")
      ]
      else throw (new_error type_error "Primary read preference cannot be combined with tags")
    else ok r

-- `new ReadPreference(mode, tags, { maxStalenessSeconds })`
unfoldable pub read_preference :
    Mode → Option (List (Dict String)) → Option ℤ → Result ReadPreference
unfolding check_primary
read_preference mode tags none =
    check_primary
      (record { mode = mode; tags = tags; max_staleness_seconds = none; min_wire_version = none })
read_preference mode tags (some s) =
    if is_positive s
    then check_primary (record {
      mode = mode;
      tags = tags;
      max_staleness_seconds = some s;
      min_wire_version = some 5;
    })
    else throw (new_error type_error "maxStalenessSeconds must be a positive integer")

-- `ReadPreference.isValid`
unfoldable pub is_valid : Mode → Bool
is_valid (other_mode m) = false
is_valid _ = true

unfoldable pub slave_ok : Mode → Bool
slave_ok primary_preferred = true
slave_ok secondary = true
slave_ok secondary_preferred = true
slave_ok nearest = true
slave_ok _ = false

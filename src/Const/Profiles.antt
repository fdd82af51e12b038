-- ===== src/Const/Profiles.antt =====
-- const.py: the unit profiles, and the app catalog.
use meltem_ha.Prelude.{
  Bool, List, Option, String, [], arith, contains, false, if◌then◌else◌, is_some, none, not, some,
  str_eq, ℕ, ◌&&◌, ◌==◌, ◌||◌, ◌∷◌, ◌≡◌, ◌⊎◌,
}

pub record ProductMetadata : Type 0 where
  pub series : String
  pub model_id : String

-- PRODUCT_METADATA.get, and `product_metadata` on an ID that may be `None`
unfoldable pub product_metadata : Option ℕ → Option ProductMetadata
product_metadata none = none
product_metadata (some product_id) =
    if product_id == 116819
    then some (record { series = "M-WRG"; model_id = "VMD-22RES22" })
    else if product_id == 116852
    then some (record { series = "M-WRG-II"; model_id = "VMD-22RPS44" })
    else none

pub record ProfileMetadata : Type 0 where
  pub label : String
  pub max_airflow : ℕ
  pub capabilities : List String

abbrev s_unit : String → List String → ProfileMetadata
s_unit label capabilities = record { label = label; max_airflow = 97; capabilities = capabilities }

abbrev ii_unit : String → List String → ProfileMetadata
ii_unit label capabilities = record {
  label = label;
  max_airflow = 100;
  capabilities = capabilities;
}

-- PROFILE_METADATA.get
unfoldable pub profile_metadata : String → Option ProfileMetadata
profile_metadata profile =
    if str_eq profile "s_plain"
    then some (s_unit "M-WRG-S" [])
    else if str_eq profile "s_f"
    then some (s_unit "M-WRG-S (-F)" ("humidity" ∷ []))
    else if str_eq profile "s_fc"
    then some (s_unit "M-WRG-S (-FC)" ("humidity" ∷ "co2" ∷ []))
    else if str_eq profile "ii_plain"
    then some (ii_unit "M-WRG-II" [])
    else if str_eq profile "ii_f"
    then some (ii_unit "M-WRG-II (-F)" ("humidity" ∷ []))
    else if str_eq profile "ii_fc"
    then some (ii_unit "M-WRG-II (-FC)" ("humidity" ∷ "co2" ∷ []))
    else if str_eq profile "ii_fc_voc"
    then some (ii_unit "M-WRG-II (O/VOC-AUL)" ("humidity" ∷ "co2" ∷ "voc" ∷ []))
    else none

label_of : Option ProfileMetadata → String
label_of none = "M-WRG"
label_of (some metadata) = metadata.label

unfoldable pub profile_label : String → String
unfolding label_of profile_metadata
profile_label profile = label_of (profile_metadata profile)

airflow_of : Option ProfileMetadata → ℕ
airflow_of none = 100
airflow_of (some metadata) = metadata.max_airflow

unfoldable pub profile_max_airflow : String → ℕ
unfolding airflow_of
profile_max_airflow profile = airflow_of (profile_metadata profile)

-- Every profile, known or not, has one of two maximum airflows.
pub profile_max_airflow_cases :
    (profile : String) → (profile_max_airflow profile ≡ 97) ⊎ (profile_max_airflow profile ≡ 100)
unfolding profile_max_airflow profile_metadata
profile_max_airflow_cases profile = ground arith

capability_in : String → Option ProfileMetadata → Bool
capability_in capability none = false
capability_in capability (some metadata) = contains capability metadata.capabilities

-- `profile in _profiles_with(capability)`: HUMIDITY_PROFILES, CO2_PROFILES and VOC_PROFILES
unfoldable pub profile_has : String → String → Bool
unfolding capability_in
profile_has capability profile = capability_in capability (profile_metadata profile)

-- `profile in PLAIN_PROFILES`: a known profile without a sensor to control by
unfoldable pub is_plain_profile : String → Bool
is_plain_profile profile =
    is_some (profile_metadata profile)
    && not (profile_has "humidity" profile || profile_has "co2" profile)

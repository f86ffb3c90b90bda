-- ===== src/Engines/JavaProperties.antt =====
-- engines/java_properties.py, and `refuse_java_oauth` of ingest_bench/kafka_auth.py.
pub mod Iam
use text.Mathlib.Text.{◌==◌ as str_eq}
use lakehouse_ingest_bench.Result.{value_error, Result, ok, err, ◌>>=◌, ◌>>◌, refuse}
use lakehouse_ingest_bench.Prelude.{
  String, Bool, false, not, ◌&&◌, Option, none, some, List, [], ◌∷◌, ◌++◌, if◌then◌else◌, any,
}
use Prim.Native.String.{compare}
use Prim.Native.Nat.{Ordering}
use lakehouse_ingest_bench.Prelude.Strings.{codes, begins_with, lookup, has_key, keys, put, without}

abbrev pub Props : Type 0
Props = List (String × String)

abbrev pub mechanism_key : String
mechanism_key = "sasl.mechanism"

abbrev pub region_key : String
region_key = "aws.region"

-- sorted(props), by key
unfoldable pub insert_key : String × String → Props → Props
insert_key entry [] = entry ∷ []
insert_key entry (other ∷ props) =
    let rest = insert_key entry props in
    elim (compare entry.0 other.0) [ Ordering.gt ↦ other ∷ rest | _ ↦ entry ∷ other ∷ props ]

unfoldable pub sorted_by_key : Props → Props
unfolding insert_key
sorted_by_key [] = []
sorted_by_key (entry ∷ props) = insert_key entry (sorted_by_key props)

-- _CATALOG_PROP_RENAMES.get(key, key)
abbrev pub renamed : String → String
renamed key = if str_eq key "s3.region" then "client.region" else key

abbrev pub io_impl : String → Option String
io_impl warehouse =
    if begins_with (codes warehouse) (codes "s3://")
    then some "org.apache.iceberg.aws.s3.S3FileIO"
    else if begins_with (codes warehouse) (codes "gs://")
    then some "org.apache.iceberg.gcp.gcs.GCSFileIO"
    else none

abbrev pub with_io : Option String → Props → Props
with_io none normalized = normalized
with_io (some implementation) normalized = put "io-impl" implementation normalized

abbrev pub put_renamed : Props → Props → Props
put_renamed normalized [] = normalized
put_renamed normalized ((key, value) ∷ props) =
    put_renamed (put (renamed key) value normalized) props

abbrev is_other_type : Option String → Bool
is_other_type none = false
is_other_type (some name) = not (str_eq name "rest")

unfoldable pub needed : Props → String → Result String
needed props key = elim (lookup key props) [ none ↦ err value_error | some value ↦ ok value ]

unfoldable pub catalog_properties : Props → String → Result Props
unfolding sorted_by_key
catalog_properties props warehouse = do
  refuse (is_other_type (lookup "type" props))
  uri ← needed props "uri"
  place ← needed props "warehouse"
  ok (
      put_renamed (with_io (io_impl warehouse) (("uri", uri) ∷ ("warehouse", place) ∷ []))
        (sorted_by_key (without ("type" ∷ "uri" ∷ "warehouse" ∷ []) props)))

unfoldable pub has_explicit_oauth : Props → Bool
has_explicit_oauth security =
    any (λ key. begins_with (codes key) (codes "sasl.oauthbearer.")) (keys security)

unfoldable pub refuse_java_oauth : Props → Result (Unit {0})
refuse_java_oauth security = refuse (has_explicit_oauth security)

abbrev pub msk_iam_props : Props
msk_iam_props =
    ("security.protocol", "SASL_SSL")
    ∷ (mechanism_key, "AWS_MSK_IAM")
    ∷ ("sasl.jaas.config", "software.amazon.msk.auth.iam.IAMLoginModule required;")
    ∷ (
      "sasl.client.callback.handler.class", "software.amazon.msk.auth.iam.IAMClientCallbackHandler",
    )
    ∷ []

abbrev is_bearer : Option String → Bool
is_bearer none = false
is_bearer (some mechanism) = str_eq mechanism "OAUTHBEARER"

-- The harness's signal for MSK IAM.
abbrev pub signals_iam : Props → Bool
signals_iam security = is_bearer (lookup mechanism_key security) && has_key region_key security

unfoldable pub kafka_properties : Props → Result Props
kafka_properties security = do
  refuse_java_oauth security
  if signals_iam security
      then ok (msk_iam_props ++ without (region_key ∷ keys msk_iam_props) security)
      else ok security

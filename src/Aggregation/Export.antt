-- ===== src/Aggregation/Export.antt =====
-- `S3Exporter.export_parquet` of hm5/aggregation/app/s3_exporter.py. The objects of the bucket hold the
-- rows that pandas writes to them; what the upload comes to, its retries included, is a parameter.
use Prim.Native.String.{◌++◌}
use service_oriented_archite.Base.{ℕ, ◌+◌, String, List, [], ◌∷◌, string_eq, ◌≡◌, refl}
use service_oriented_archite.Base.Int.{pos}
use service_oriented_archite.Base.Table.{Table, insert}
use service_oriented_archite.Python.Decimal.{str}
use service_oriented_archite.Python.Datetime.{Civil, civil, padded}
use service_oriented_archite.Aggregation.Ranking.{Row}
use service_oriented_archite.Aggregation.Scheduler.{Answer, done, error}

pub record Bucket : Type 0 where
  pub name : String
  pub objects : Table String (List Row)

-- The days from 0001-01-01 to 1970-01-01.
abbrev days_before : ℕ
days_before = 719162

unfoldable pub object_key : ℕ → String
unfolding str civil padded
object_key target_date =
    let d : Civil = civil (target_date + days_before) in
    "aggregates/year="
    ++ (str (pos d.year)
        ++ ("/month=" ++ padded 2 d.month ("/day=" ++ padded 2 d.day "/movies_agg.parquet")))

unfoldable pub s3_path : String → String → String
s3_path bucket key = "s3://" ++ (bucket ++ ("/" ++ key))

-- What an upload comes to, its retries included: it is answered, none of its attempts is carried out, or
-- one of them is carried out although an exception ends the last (a lost answer).
pub data Upload : Type 0 where
  answered : Upload
  refused lost : String → Upload

abbrev pub with_object : String → List Row → Bucket → Bucket
with_object key rows b = record b { objects = insert key rows b.objects }

unfoldable pub put_object : Upload → String → List Row → Bucket → Answer String × Bucket
unfolding s3_path
put_object answered key rows b = (done (s3_path b.name key), with_object key rows b)
put_object (refused e) key rows b = (error e, b)
put_object (lost e) key rows b = (error e, with_object key rows b)

unfoldable pub export_parquet : Upload → List Row → ℕ → Bucket → Answer String × Bucket
unfolding put_object object_key
export_parquet upload [] target_date b = (done "", b)
export_parquet upload (r ∷ rest) target_date b =
    put_object upload (object_key target_date) (r ∷ rest) b

object_key_texts :
    (object_key 19782 ≡ "aggregates/year=2024/month=02/day=29/movies_agg.parquet")
    × (s3_path "movie-analytics" "k" ≡ "s3://movie-analytics/k")
unfolding object_key s3_path
object_key_texts = (refl, refl)

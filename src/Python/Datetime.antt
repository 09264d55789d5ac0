-- ===== src/Python/Datetime.antt =====
-- `datetime` of Python's standard library, as hm6/consumer/schema_evolution.py and
-- hm6/consumer/handlers.py use it. The times of events are whole milliseconds (the Avro type is
-- timestamp-millis), so a naive `datetime` is the number of milliseconds since the year 1 began.
use service_oriented_archite.Base.{
  ℕ, zero, suc, ◌+◌, ◌-◌, ◌*◌, ◌/◌, ◌%◌, String, ◌≡◌, refl, Option, none, some, ltb, eqb,
  if◌then◌else◌,
}
use service_oriented_archite.Base.Int.{ℤ, pos, negsuc, ◌+ℤ◌, ◌-ℤ◌}
use service_oriented_archite.Python.Decimal.{digit}

abbrev pub ms_per_day : ℕ
ms_per_day = 86400000

-- 1970-01-01, and the first moment after the year 9999.
abbrev pub epoch : ℕ
epoch = 62135596800000

abbrev pub datetime_limit : ℕ
datetime_limit = 315537897600000

-- A number of milliseconds since the year 1, if a `datetime` can hold it (else an OverflowError).
unfoldable pub in_range : ℤ → Option ℕ
in_range (pos t) = if ltb t datetime_limit then some t else none
in_range (negsuc _) = none

-- `utcfromtimestamp(n / 1000.0)`, exact for the numbers whose quotient a float holds to the
-- microsecond (until the year 2242).
unfoldable pub from_timestamp : ℤ → Option ℕ
unfolding in_range ◌+ℤ◌
from_timestamp n = in_range (pos epoch +ℤ n)

-- `ts.astimezone(utc).replace(tzinfo=None)` for a clock time with an offset from UTC.
unfoldable pub to_naive_utc : ℕ → ℤ → Option ℕ
unfolding in_range ◌-ℤ◌
to_naive_utc clock offset = in_range (pos clock -ℤ offset)

-- `ts.date()`, as the number of days since 0001-01-01.
unfoldable pub date : ℕ → ℕ
date t = t / ms_per_day

-- The last `width` digits of `n` in front of `rest`.
unfoldable pub padded : ℕ → ℕ → String → String
padded zero n rest = rest
padded (suc width) n rest = padded width (n / 10) (String.◌∷◌ (digit (n % 10)) rest)

pub record Civil : Type 0 where
  pub year : ℕ
  pub month : ℕ
  pub day : ℕ

-- The proleptic Gregorian calendar. Years are counted from March, in cycles of 400 years.
unfoldable pub civil : ℕ → Civil
civil days =
    let z : ℕ = days + 306 in
    let cycle : ℕ = z % 146097 in
    let yoe : ℕ = (cycle - cycle / 1460 + cycle / 36524 - cycle / 146096) / 365 in
    let doy : ℕ = cycle - (365 * yoe + yoe / 4 - yoe / 100) in
    let mp : ℕ = (5 * doy + 2) / 153 in
    record {
      year = yoe + z / 146097 * 400 + (if ltb mp 10 then 0 else 1);
      month = if ltb mp 10 then mp + 3 else mp - 9;
      day = doy - (153 * mp + 2) / 5 + 1;
    }

-- The offset of an aware time, `+HH:MM`; offsets are whole minutes.
unfoldable pub utc_offset : ℤ → String
unfolding padded
utc_offset (pos o) =
    String.◌∷◌ "+" (padded 2 (o / 3600000) (String.◌∷◌ ":" (padded 2 (o / 60000 % 60) "")))
utc_offset (negsuc o) =
    String.◌∷◌ "-" (padded 2 (suc o / 3600000) (String.◌∷◌ ":" (padded 2 (suc o / 60000 % 60) "")))

-- `.ffffff`, which is left out at a whole second.
unfoldable pub fraction : ℕ → String → String
unfolding padded
fraction ms rest = if eqb ms 0 then rest else String.◌∷◌ "." (padded 3 ms (padded 3 0 rest))

-- `ts.isoformat()`, in front of the offset.
unfoldable pub isoformat : ℕ → String → String
unfolding civil padded fraction date
isoformat t offset =
    let d : Civil = civil (date t) in
    let ms : ℕ = t % ms_per_day in
    padded 4 d.year (
      String.◌∷◌ "-" (
        padded 2 d.month (
          String.◌∷◌ "-" (
            padded 2 d.day (
              String.◌∷◌ "T" (
                padded 2 (ms / 3600000) (
                  String.◌∷◌ ":" (
                    padded 2 (ms / 60000 % 60) (
                      String.◌∷◌ ":"
                        (padded 2 (ms / 1000 % 60) (fraction (ms % 1000) offset)))))))))))

isoformat_texts :
    (isoformat epoch "" ≡ "1970-01-01T00:00:00")
    × (isoformat (epoch + 1709210096007) "" ≡ "2024-02-29T12:34:56.007000")
    × (isoformat 0 "" ≡ "0001-01-01T00:00:00")
    × (isoformat (datetime_limit - 1) (utc_offset (pos 10800000))
        ≡ "9999-12-31T23:59:59.999000+03:00")
unfolding isoformat utc_offset
isoformat_texts = (refl, refl, refl, refl)

from_timestamp_texts :
    (from_timestamp (pos 5) ≡ some (epoch + 5)) × (from_timestamp (negsuc epoch) ≡ none)
unfolding from_timestamp
from_timestamp_texts = (refl, refl)

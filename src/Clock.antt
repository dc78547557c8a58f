-- ===== src/Clock.antt =====
-- `getCurrentTime` (server.cpp and client.cpp): the time as text, for the log.
pub mod Lines
use nat.Prelude.{
  ℕ, ◌+◌, Str, codes, to_string, Option, none, some, List, [], ◌∷◌, ◌++◌, ltb, if◌then◌else◌,
  get_elem?,
}

-- C's `tm`, as far as `asctime` reads it; `year` counts from 1900.
pub record Tm : Type 0 where
  pub wday : ℕ
  pub mon : ℕ
  pub mday : ℕ
  pub hour : ℕ
  pub min : ℕ
  pub sec : ℕ
  pub year : ℕ

abbrev pub day_names : List Str
day_names =
    codes "Sun"
    ∷ codes "Mon"
    ∷ codes "Tue"
    ∷ codes "Wed"
    ∷ codes "Thu"
    ∷ codes "Fri"
    ∷ codes "Sat"
    ∷ []

abbrev pub month_names : List Str
month_names =
    codes "Jan"
    ∷ codes "Feb"
    ∷ codes "Mar"
    ∷ codes "Apr"
    ∷ codes "May"
    ∷ codes "Jun"
    ∷ codes "Jul"
    ∷ codes "Aug"
    ∷ codes "Sep"
    ∷ codes "Oct"
    ∷ codes "Nov"
    ∷ codes "Dec"
    ∷ []

abbrev pub name_in : List Str → ℕ → Str
name_in names i = elim (get_elem? names i) [ none ↦ codes "???" | some name ↦ name ]

-- `%.2d` and `%3d`.
abbrev pub two_digits : ℕ → Str
two_digits n = if ltb n 10 then 48 ∷ to_string n else to_string n

abbrev pub three_wide : ℕ → Str
three_wide n =
    if ltb n 10 then 32 ∷ 32 ∷ to_string n else if ltb n 100 then 32 ∷ to_string n else to_string n

-- The C standard's `asctime`, "%.3s %.3s%3d %.2d:%.2d:%.2d %d\n", without the newline.
unfoldable pub date_text : Tm → Str
date_text t =
    name_in day_names t.wday
    ++ (32
        ∷ (name_in month_names t.mon
            ++ (three_wide t.mday
                ++ (32
                    ∷ (two_digits t.hour
                        ++ (58
                            ∷ (two_digits t.min
                                ++ (58
                                    ∷ (two_digits t.sec ++ (32 ∷ to_string (t.year + 1900)))))))))))

unfoldable pub asctime : Tm → Str
asctime t = date_text t ++ (10 ∷ [])

-- `std::string::pop_back`, undefined on an empty text.
unfoldable pub pop_back : Str → Option Str
pop_back [] = none
pop_back (c ∷ []) = some []
pop_back (c ∷ d ∷ cs) = elim (pop_back (d ∷ cs)) [ none ↦ none | some s ↦ some (c ∷ s) ]

-- `localtime` stands on the system's time zone.
unfoldable pub get_current_time : (ℕ → Tm) → ℕ → Option Str
get_current_time localtime now = pop_back (asctime (localtime now))

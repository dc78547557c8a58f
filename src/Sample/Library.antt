-- ===== src/Sample/Library.antt =====
-- The operations of the JSON interface on those values, with its laws.
use nat.Prelude.{
  ℕ, ◌%◌, ◌^◌, ◌≡◌, refl, ap, ap, Option, none, some, Bool, true, false, List, [], ◌∷◌, Str,
}
use nat.StdMap.{StdMap, find, IsSorted}
use nat.External.{JsonLib, with_field}
use nat.Sample.Codec.{
  Value, null, str, num, arr, obj, Items, nil, cons, Fields, end, field, parse, dump, parse-dump,
  parse-padded, dump-ne-nil,
}

abbrev pub to_items : List Value → Items
to_items [] = nil
to_items (x ∷ xs) = cons x (to_items xs)

abbrev pub to_fields : List (Str × Value) → Fields
to_fields [] = end
to_fields ((k, v) ∷ fs) = field k v (to_fields fs)

abbrev pub of_fields : Fields → List (Str × Value)
of_fields end = []
of_fields (field k v fs) = (k, v) ∷ of_fields fs

of_fields-to_fields : (fs : List (Str × Value)) → of_fields (to_fields fs) ≡ fs
of_fields-to_fields [] = refl
of_fields-to_fields ((k, v) ∷ fs) = ap (◌∷◌ (k, v)) (of_fields-to_fields fs)

abbrev pub is_null : Value → Bool
is_null null = true
is_null _ = false

abbrev pub find_field : Str → Value → Option Value
find_field k (obj fs) = find k (of_fields fs)
find_field k _ = none

abbrev pub or_null : Option Value → Value
or_null none = null
or_null (some v) = v

abbrev pub at : Str → Value → Option Value
at k null = some null
at k (obj fs) = some (or_null (find k (of_fields fs)))
at k _ = none

abbrev pub first : Value → Option Value
first null = some null
first (arr nil) = some null
first (arr (cons x xs)) = some x
first _ = none

abbrev pub put : Str → Value → Value → Option Value
put k v null = some (obj (field k v end))
put k v (obj fs) = some (obj (to_fields (with_field k v (of_fields fs))))
put k v _ = none

abbrev pub put_first : Value → Value → Option Value
put_first v null = some (arr (cons v nil))
put_first v (arr nil) = some (arr (cons v nil))
put_first v (arr (cons x xs)) = some (arr (cons v xs))
put_first v _ = none

abbrev pub get_string : Value → Option Str
get_string (str s) = some s
get_string _ = none

abbrev pub get_port : Value → Option ℕ
get_port (num n) = some (n % 2 ^ 16)
get_port _ = none

abbrev pub items : Value → Option (List (Str × Value))
items null = some []
items (obj fs) = some (of_fields fs)
items _ = none

abbrev pub end_throws : Value → Bool
end_throws (arr xs) = false
end_throws (obj fs) = false
end_throws _ = true

pub find_field-obj :
    (k : Str) (fs : List (Str × Value)) → find_field k (obj (to_fields fs)) ≡ find k fs
find_field-obj k fs = rw (of_fields-to_fields fs)

pub at-obj :
    (k : Str) (fs : List (Str × Value)) (v : Value)
    → find k fs ≡ some v
    → at k (obj (to_fields fs)) ≡ some v
at-obj k fs v e = rw (of_fields-to_fields fs, e)

pub at-missing :
    (k : Str) (fs : List (Str × Value)) → find k fs ≡ none → at k (obj (to_fields fs)) ≡ some null
at-missing k fs e = rw (of_fields-to_fields fs, e)

pub put-obj :
    (k : Str) (v : Value) (fs : List (Str × Value))
    → put k v (obj (to_fields fs)) ≡ some (obj (to_fields (with_field k v fs)))
put-obj k v fs = rw (of_fields-to_fields fs)

pub items-obj : (m : StdMap Value) → IsSorted m → items (obj (to_fields m)) ≡ some m
items-obj m s = rw (of_fields-to_fields m)

abbrev pub library : JsonLib Value
library = record {
  null = null;
  str = str;
  num = num;
  arr = λ xs. arr (to_items xs);
  obj = λ fs. obj (to_fields fs);
  dump = dump;
  parse = parse;
  is_null = is_null;
  find_field = find_field;
  at = at;
  first = first;
  put = put;
  put_first = put_first;
  get_string = get_string;
  get_port = get_port;
  items = items;
  end_throws = end_throws;
  parse-dump = parse-dump;
  parse-padded = parse-padded;
  dump-ne-nil = dump-ne-nil;
  find_field-obj = find_field-obj;
  at-obj = at-obj;
  at-missing = at-missing;
  at-null = λ k. refl;
  first-arr = λ j js. refl;
  first-null = refl;
  put-obj = put-obj;
  put_first-arr = λ v j js. refl;
  get_string-str = λ s. refl;
  get_string-null = refl;
  get_port-num = λ n. refl;
  items-obj = items-obj;
  end_throws-obj = λ fs. refl;
  is_null-null = refl;
  is_null-obj = λ fs. refl;
}

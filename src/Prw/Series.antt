-- ===== src/Prw/Series.antt =====
-- The methods of internal/prw/types.go on time series and requests that the limits and the splitter call.
use Prim.Native.Nat.{bit_xor}
use metrics_governor.Prelude.{
  ℕ, ◌+◌, ◌*◌, ◌%◌, ◌^◌, Bool, true, false, ◌&&◌, ◌||◌, List, [], ◌∷◌, length, sum_map, ltb, ◌==◌,
  if◌then◌else◌,
}
use metrics_governor.Prw.Proto.Messages.{Label, TimeSeries, WriteRequest}

-- `==` and `<` of strings, byte by byte.
unfoldable pub bytes_eqb : List ℕ → List ℕ → Bool
bytes_eqb [] [] = true
bytes_eqb [] (y ∷ ys) = false
bytes_eqb (x ∷ xs) [] = false
bytes_eqb (x ∷ xs) (y ∷ ys) = x == y && bytes_eqb xs ys

unfoldable pub bytes_ltb : List ℕ → List ℕ → Bool
bytes_ltb xs [] = false
bytes_ltb [] (y ∷ ys) = true
bytes_ltb (x ∷ xs) (y ∷ ys) = ltb x y || (x == y && bytes_ltb xs ys)

-- The bytes of `__name__`.
abbrev pub name_label : List ℕ
name_label = 95 ∷ 95 ∷ 110 ∷ 97 ∷ 109 ∷ 101 ∷ 95 ∷ 95 ∷ []

unfoldable pub label_value : List ℕ → List Label → List ℕ
label_value name [] = []
label_value name (l ∷ ls) = if bytes_eqb l.name name then l.value else label_value name ls

abbrev pub get_label_value : TimeSeries → List ℕ → List ℕ
get_label_value ts name = label_value name ts.labels

abbrev pub metric_name : TimeSeries → List ℕ
metric_name ts = label_value name_label ts.labels

abbrev pub datapoint_count : TimeSeries → ℕ
datapoint_count ts = length ts.samples + length ts.exemplars + length ts.histograms

abbrev pub total_datapoints : WriteRequest → ℕ
total_datapoints req = sum_map datapoint_count req.timeseries

-- `sort.Slice` by name, which keeps the order of equal names in lists as short as those of labels.
unfoldable pub insert_label : Label → List Label → List Label
insert_label l [] = l ∷ []
insert_label l (k ∷ ks) = if bytes_ltb k.name l.name then k ∷ insert_label l ks else l ∷ k ∷ ks

unfoldable pub sorted_labels : List Label → List Label
sorted_labels [] = []
sorted_labels (l ∷ ls) = insert_label l (sorted_labels ls)

abbrev pub sort_labels : TimeSeries → TimeSeries
sort_labels ts = record ts { labels = sorted_labels ts.labels }

-- One round of FNV-1a.
unfoldable pub hash_byte : ℕ → ℕ → ℕ
hash_byte hash b = bit_xor hash b * 1099511628211 % 2 ^ 64

unfoldable pub hash_bytes : ℕ → List ℕ → ℕ
hash_bytes hash [] = hash
hash_bytes hash (b ∷ bs) = hash_bytes (hash_byte hash b) bs

unfoldable pub hash_labels : ℕ → List Label → ℕ
hash_labels hash [] = hash
hash_labels hash (l ∷ ls) =
    hash_labels (hash_byte (hash_bytes (hash_byte (hash_bytes hash l.name) 255) l.value) 255) ls

abbrev pub labels_hash : TimeSeries → ℕ
labels_hash ts = hash_labels 14695981039346656037 ts.labels

-- ===== src/Store/Tests.antt =====
-- A listing of two pages, with the number of seconds for the SDK's time.
use s3_pulse.Base.{
  ℕ, ◌+◌, ◌≤◌, ◌<◌, ◌≡◌, refl, true, false, Option, none, some, List, [], ◌∷◌, arith, Result, ok,
  ◌>>=◌, length, take,
}
use s3_pulse.Base.Int.{pos}
use s3_pulse.Base.Text.{Text, codes}
use s3_pulse.Base.Sort.{sort_by, place}
use s3_pulse.Base.Map.{insert}
use s3_pulse.Model.{S3Object}
use s3_pulse.Error.{StoreError}
use s3_pulse.Store.{Entry, Page, list_objects, finish_newest}
use s3_pulse.Store.Newest.{file_all, retain_all, length-retain_all}
use s3_pulse.Store.Sorted.{finish_newest-retain_all}
use s3_pulse.Store.Pages.{Serves, last, more, read_all, entries, list_objects-Serves}

abbrev timestamp : ℕ → Option ℕ
timestamp n = some n

abbrev entry : Text → ℕ → Entry ℕ
entry key seconds = record {
  key = some key;
  last_modified = some seconds;
  size = some (pos 1);
  e_tag = none;
  storage_class = none;
}

abbrev first_page : Page ℕ
first_page = record {
  contents = entry (codes "a") 20 ∷ entry (codes "old") 10 ∷ [];
  is_truncated = some true;
  next_continuation_token = some (codes "next");
}

abbrev second_page : Page ℕ
second_page = record {
  contents = entry (codes "z") 20 ∷ [];
  is_truncated = some false;
  next_continuation_token = none;
}

abbrev client : ℕ → Option Text → Result StoreError (Page ℕ)
client n none = ok first_page
client n (some token) = ok second_page

abbrev pages : List (List (Entry ℕ))
pages = first_page.contents ∷ second_page.contents ∷ []

serves : Serves timestamp client 5 none pages
serves = more first_page (codes "next") refl refl refl (last second_page refl refl)

list_objects-Serves_example :
    (requests : ℕ) × (list_objects timestamp client 2 3 5
      ≡ some (
        (read_all timestamp (entries timestamp pages) >>= λ xs.
            ok (take 2 (finish_newest (file_all [] xs)))),
        requests,
      ))
    × (5 < requests)
    × (requests ≤ 5 + length pages)
list_objects-Serves_example =
    list_objects-Serves timestamp client 2 3 5 pages (omega arith) serves (omega arith)

abbrev object : Text → ℕ → S3Object
object key seconds = record {
  key = key;
  last_modified = seconds;
  size = 1;
  etag = none;
  storage_class = none;
}

newest_two :
    list_objects timestamp client 2 3 5
    ≡ some (ok (object (codes "a") 20 ∷ object (codes "z") 20 ∷ []), 7)
unfolding list_objects sort_by place insert
newest_two = refl

abbrev listing : List S3Object
listing = object (codes "z") 20 ∷ object (codes "old") 10 ∷ object (codes "a") 20 ∷ []

finish_newest-retain_all_example :
    finish_newest (retain_all 2 [] listing) ≡ take 2 (finish_newest (file_all [] listing))
finish_newest-retain_all_example = finish_newest-retain_all 2 listing

length-retain_all_example : length (retain_all 2 [] listing) ≤ 2
length-retain_all_example = length-retain_all 2 listing

-- ===== src/Bus/Stem/RoundTrip.antt =====
-- A file name that was built parses to its parts (src/otaman_core/bus_stem.py: build_filename,
-- parse_stem).
use Prim.Native.String.{[], ◌∷◌}
use text.Mathlib.TextLemmas.{nil-append, cons-append, append_assoc}
use otaman_core.Prelude.{
  ◌<◌, String, true, false, none, some, List, elem, ◌+++◌, is_empty, lstrip, starts_with,
  starts_with-append, drop_prefix, drop_prefix-append, text_length, inr, ◌⊎◌, ◌≡◌, refl, ap, ◌∙◌,
  subst, arith,
}
use otaman_core.Bus.Stem.{
  safe, route_sep, build_stem, build_filename, is_hyphen, match_timestamp, after_counter,
  partition_route, names, split_recipient, parse_route, parse_stem,
}
use otaman_core.Bus.Stem.Pieces.{drop_md-append, match_timestamp-append, partition_route-append}
use otaman_core.Bus.Stem.Longest.{best_name-longest}

hyphen-append : (s : String) → "-" +++ s ≡ "-" ∷ s
hyphen-append s = cons-append "-" [] s ∙ ap (λ t. "-" ∷ t) (nil-append s)

after_counter-hyphen : (s : String) → after_counter ("-" +++ s) ≡ some s
unfolding after_counter
after_counter-hyphen s = rw (hyphen-append s) refl

split_recipient-tail :
    (r slug : String) (known : List String)
    → elem r known ≡ true
    → ((name : String)
        → elem name known ≡ true
        → names (r +++ "-" +++ slug) name ≡ true
        → (name ≡ r) ⊎ (text_length name < text_length r))
    → is_empty slug ≡ false
    → lstrip is_hyphen slug ≡ slug
    → split_recipient (r +++ "-" +++ slug) known ≡ (some r, some slug)
unfolding split_recipient
split_recipient-tail r slug known here others filled plain =
    let tail = r +++ "-" +++ slug in
    let prefix : starts_with tail (r +++ "-") ≡ true =
      subst (λ t. starts_with t (r +++ "-") ≡ true) (append_assoc r "-" slug)
        (starts_with-append (r +++ "-") slug) in
    let named : names tail r ≡ true = ground (arith, prefix) in
    let stripped : lstrip is_hyphen ("-" ∷ slug) ≡ slug = unfold lstrip in plain in
    let left : lstrip is_hyphen (drop_prefix tail r) ≡ slug =
      ap (lstrip is_hyphen) (drop_prefix-append r ("-" +++ slug) ∙ hyphen-append slug) ∙ stripped in
    rw (best_name-longest tail r known none named others (inr (here, refl)), split_recipient)
      (rw left (rw filled refl))

partition_route-sender :
    (s tail : String)
    → partition_route (s +++ route_sep) ≡ some (s, "")
    → partition_route (s +++ route_sep +++ tail) ≡ some (s, tail)
partition_route-sender s tail first =
    subst (λ t. partition_route t ≡ some (s, tail)) (append_assoc s route_sep tail)
      (partition_route-append (s +++ route_sep) tail s "" first
        ∙ ap (λ t. some (s, t)) (nil-append tail))

parse_route-sender :
    (timestamp s tail : String) (known : List String)
    → partition_route (s +++ route_sep) ≡ some (s, "")
    → parse_route timestamp (s +++ route_sep +++ tail) known ≡ record {
      timestamp = timestamp;
      sender = s;
      recipient = (split_recipient tail known).0;
      slug = (split_recipient tail known).1;
      tail = tail;
    }
unfolding parse_route
parse_route-sender timestamp s tail known first =
    rw (partition_route-sender s tail first, parse_route) refl

parse_stem-built :
    (timestamp rest : String) (known : List String)
    → match_timestamp timestamp ≡ some (timestamp, "")
    → parse_stem ((timestamp +++ "-" +++ rest) +++ ".md") known
      ≡ some (parse_route timestamp rest known)
unfolding parse_stem
parse_stem-built timestamp rest known compact =
    let leads : match_timestamp (timestamp +++ "-" +++ rest) ≡ some (timestamp, "-" +++ rest) =
      match_timestamp-append timestamp ("-" +++ rest) timestamp "" compact
      ∙ ap (λ t. some (timestamp, t)) (nil-append ("-" +++ rest)) in
    rw (drop_md-append (timestamp +++ "-" +++ rest), parse_stem)
      (rw (leads, parse_stem) (rw (after_counter-hyphen rest, parse_stem) refl))

-- For a compact timestamp, a sender in which with the route separator after it the separator does
-- not stand earlier, a slug that is not empty and does not start with a hyphen, and known
-- recipients that hold the recipient and of which every other one that the tail leads with is
-- shorter: the file name that is built parses to the timestamp, the sender, the recipient and the
-- slug, a slash in the two names replaced by a hyphen.
pub parse_stem-build_filename :
    (timestamp sender recipient slug : String) (known : List String)
    → match_timestamp timestamp ≡ some (timestamp, "")
    → partition_route (safe sender +++ route_sep) ≡ some (safe sender, "")
    → elem (safe recipient) known ≡ true
    → ((name : String)
        → elem name known ≡ true
        → names (safe recipient +++ "-" +++ slug) name ≡ true
        → (name ≡ safe recipient) ⊎ (text_length name < text_length (safe recipient)))
    → is_empty slug ≡ false
    → lstrip is_hyphen slug ≡ slug
    → parse_stem (build_filename timestamp sender recipient slug) known
      ≡ some (record {
        timestamp = timestamp;
        sender = safe sender;
        recipient = some (safe recipient);
        slug = some slug;
        tail = safe recipient +++ "-" +++ slug;
      })
unfolding build_filename build_stem
parse_stem-build_filename timestamp sender recipient slug known compact first here others filled
      plain =
    let tail = safe recipient +++ "-" +++ slug in
    parse_stem-built timestamp (safe sender +++ route_sep +++ tail) known compact
    ∙ ap some (
        parse_route-sender timestamp (safe sender) tail known first
        ∙ rw (split_recipient-tail (safe recipient) slug known here others filled plain) refl)

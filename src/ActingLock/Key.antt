-- ===== src/ActingLock/Key.antt =====
-- src/otaman_core/acting_lock.py: the key of an identity's lock, `<org>--<program>--<agent>`.
use text.Mathlib.TextLemmas.{append_assoc}
use otaman_core.Prelude.{
  String, true, Result, ok, err, starts_with, starts_with-append, ◌+++◌, if◌then◌else◌, ◌≡◌, refl,
  sym, ◌∙◌, ap,
}
use otaman_core.Bus.Uri.{BusUri, UriError, scheme, parse, to_string}
use otaman_core.Bus.Uri.RoundTrip.{IsCanonical, parse-to_string}

pub data KeyError : Type 0 where
  not_full_uri : KeyError
  invalid_uri : UriError → KeyError

unfoldable pub key_text : BusUri → String
key_text u = u.org +++ "--" +++ u.program +++ "--" +++ u.agent

parsed_key : Result UriError BusUri → Result KeyError String
unfolding key_text
parsed_key (ok u) = ok (key_text u)
parsed_key (err e) = err (invalid_uri e)

unfoldable pub lock_key : String → Result KeyError String
unfolding parsed_key
lock_key resolved_uri =
    if starts_with resolved_uri scheme
    then parsed_key (parse resolved_uri "" "")
    else err not_full_uri

-- `_key_of`: a URI, or a key that was computed before
unfoldable pub key_of : String → Result KeyError String
unfolding lock_key
key_of target = if starts_with target scheme then lock_key target else ok target

-- The text of every address whose segments match the grammar and hold no newline has its key for
-- both functions, with no local context.
pub lock_key-to_string :
    (u : BusUri)
    → IsCanonical u
    → (lock_key (to_string u) ≡ ok (key_text u)) × (key_of (to_string u) ≡ ok (key_text u))
unfolding lock_key key_of to_string
lock_key-to_string u h =
    let full : starts_with (to_string u) scheme ≡ true = full_text u in
    (rw (full, parse-to_string u "" "" h) refl, rw (full, parse-to_string u "" "" h) refl)
  where
    full_text : (u : BusUri) → starts_with (to_string u) scheme ≡ true
    full_text u = starts_with-append scheme (u.org +++ "/" +++ u.program +++ "/" +++ u.agent)

key_text_same :
    (o p q a : String)
    → key_text (record { org = o +++ "--" +++ p; program = q; agent = a })
      ≡ key_text (record { org = o; program = p +++ "--" +++ q; agent = a })
unfolding key_text
key_text_same o p q a =
    append_assoc o ("--" +++ p) ("--" +++ q +++ "--" +++ a)
    ∙ ap (λ t. o +++ t) (append_assoc "--" p ("--" +++ q +++ "--" +++ a))
    ∙ ap (λ t. o +++ "--" +++ t)
        (sym (
          append_assoc p ("--" +++ q) ("--" +++ a)
          ∙ ap (λ t. p +++ t) (append_assoc "--" q ("--" +++ a))))

-- The key forgets where the program begins: for all texts o, p, q and a that make canonical
-- addresses of both, agent a of program q of organisation o--p, and agent a of program p--q of
-- organisation o, have one lock key.
pub lock_key-collides :
    (o p q a : String)
    → IsCanonical (record { org = o +++ "--" +++ p; program = q; agent = a })
    → IsCanonical (record { org = o; program = p +++ "--" +++ q; agent = a })
    → lock_key (to_string (record { org = o +++ "--" +++ p; program = q; agent = a }))
      ≡ lock_key (to_string (record { org = o; program = p +++ "--" +++ q; agent = a }))
lock_key-collides o p q a h k =
    (lock_key-to_string _ h).0 ∙ ap ok (key_text_same o p q a) ∙ sym (lock_key-to_string _ k).0

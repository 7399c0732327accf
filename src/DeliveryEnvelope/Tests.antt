-- ===== src/DeliveryEnvelope/Tests.antt =====
-- src/otaman_core/delivery_envelope.py: one scoped class.
use otaman_core.Prelude.{not, ◌&&◌, some, [], ◌∷◌, ok, any, ◌≡◌, refl}
use otaman_core.Yaml.{Values, str, list, dict, nil, cons, end, entry, items}
use otaman_core.DeliveryEnvelope.{
  Envelope, Registry, yes, lookup, mention_of, mention, parse_items, parse_envelope, is_floor,
  is_yes, proceeds_in,
}
use otaman_core.DeliveryEnvelope.Covers.{allows, proceeds_in-parse_envelope}

abbrev declared : Values
declared =
    cons (dict (entry (str "release-publish") (list (cons (str "otaman-deploy") nil)) end)) nil

abbrev envelope : Envelope
envelope = ("release-publish", some ("otaman-deploy" ∷ [])) ∷ []

abbrev measured : Registry
measured = ("release-publish", yes) ∷ []

parsed : parse_envelope (list declared) ≡ ok envelope
unfolding parse_envelope parse_items mention_of mention
parsed = refl

proceeds_in-parse_envelope_example :
    proceeds_in measured envelope "release-publish" (some "otaman-deploy") ≡ (
      not (is_floor "release-publish")
      && is_yes (lookup "release-publish" measured)
      && any (allows "release-publish" "otaman-deploy") (items declared))
proceeds_in-parse_envelope_example =
    proceeds_in-parse_envelope measured declared envelope "release-publish" "otaman-deploy" parsed

-- ===== src/Providers/Tests.antt =====
-- The providers at concrete inputs.
use git_simulator.Base.{◌*◌, ◌≡◌, refl, true, some, [], ◌∷◌, string_eq, lookup}
use git_simulator.Core.Errors.{ok}
use git_simulator.Core.Provider.{PushEvent, Header, Noise}
use git_simulator.Providers.Bytes.{utf8, hex, new_uuid}
use git_simulator.Providers.Bytes.Laws.{has_form, new_uuid-has_form}
use git_simulator.Providers.Toy.{library}
use git_simulator.Providers.Gogs
use git_simulator.Providers.Vendors.{gogs, vendor_provider, identified, Carries}
use git_simulator.Providers.Vendors.Laws.{build_webhook-Fits}
use git_simulator.Providers.Vendors.Bodies.{build_webhook-Carries}

abbrev noise : Noise
noise n = 7 * n

abbrev tagged : PushEvent
tagged = record {
  host = "h";
  owner = "acme";
  repo = "app";
  branch = "";
  tag = "v1";
  before = "a";
  after = "b";
}

abbrev signed : Header
signed =
    ("Content-Type", "application/json" ∷ [])
    ∷ ("X-Gogs-Event", "push" ∷ [])
    ∷ ("X-Gogs-Signature", "6b7b" ∷ [])
    ∷ []

gogs_made : (vendor_provider library gogs).build_webhook noise tagged "k" ≡ ok (signed, 123 ∷ [])
unfolding Gogs.build_webhook
gogs_made = refl

build_webhook-Fits_example :
    (identified signed ≡ some gogs) × (lookup "X-Gogs-Signature" signed ≡ some ("6b7b" ∷ []))
unfolding hex utf8
build_webhook-Fits_example =
    build_webhook-Fits library noise tagged "k" gogs signed (123 ∷ []) gogs_made

build_webhook-Carries_example :
    Carries library
      (123 ∷ [])
      gogs
      (record { name = "refs/tags/v1"; old = some "a"; new = "b" } ∷ [])
build_webhook-Carries_example =
    build_webhook-Carries library noise tagged "k" refl gogs signed (123 ∷ []) gogs_made

new_uuid-has_form_example : has_form "xxxxxxxx-xxxx-4xxx-yxxx-xxxxxxxxxxxx" (new_uuid noise) ≡ true
new_uuid-has_form_example = new_uuid-has_form noise

uuid : new_uuid noise ≡ "00070e15-1c23-4a31-b83f-464d545b6269"
unfolding new_uuid
uuid = refl

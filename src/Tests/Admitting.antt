-- ===== src/Tests/Admitting.antt =====
-- Examples of authorization and of the admission limiter.

use inbox_saas.Prelude.{◌≡◌, ◌↔◌, refl, true, false, List, [], ◌∷◌, keep}
use inbox_saas.Access.{
  AccessGrant, AccessRequest, read, write, organization, workspace, is_authorized, grant_allows,
}
use inbox_saas.Access.Coverage.{HasCover, write_any, whole, is_authorized_iff, is_authorized_mono}
use inbox_saas.Limiter.Counts.{lookup, insert, erase}
use inbox_saas.Limiter.{
  Event, acquires, releases, new_limiter, run, step, acquire, release, grant, wake_from,
  wake_waiters, give_back, has_capacity,
}
use inbox_saas.Limiter.Bounds.{Inv, belongs, run-Inv}
use inbox_saas.Limiter.Order.{line_of, requested, run-fifo}
use inbox_saas.Tests.Fixtures.{grants}

abbrev read_workspace : AccessRequest
read_workspace = record { scope = workspace 20; organization_id = 10; permission = read }

abbrev write_organization : AccessRequest
write_organization = record { scope = organization; organization_id = 10; permission = write }

abbrev reader : List AccessGrant
reader = record { scope = workspace 20; organization_id = 10; permission = read } ∷ []

authorization_tests :
    (is_authorized grants read_workspace ≡ true)
    × (is_authorized reader read_workspace ≡ true)
    × (is_authorized reader write_organization ≡ false)
unfolding is_authorized grant_allows
authorization_tests = (refl, refl, refl)

is_authorized_iff_example :
    (is_authorized reader read_workspace ≡ true) ↔ HasCover reader read_workspace
is_authorized_iff_example = is_authorized_iff reader read_workspace

is_authorized_mono_example : is_authorized grants read_workspace ≡ true
unfolding is_authorized grant_allows
is_authorized_mono_example =
    is_authorized_mono grants read_workspace write_organization
      (record { same_organization = refl; lower = write_any; narrower = whole }) refl

-- Four calls of one organization, one of another, and a release that runs twice.
abbrev history : List Event
history =
    acquires 1 101
    ∷ acquires 1 102
    ∷ acquires 1 103
    ∷ acquires 1 104
    ∷ acquires 2 201
    ∷ releases 102
    ∷ releases 102
    ∷ []

limiting : Unit {0}
unfolding run step acquire release grant wake_from wake_waiters give_back has_capacity lookup insert
    erase
limiting = tt

history_tests :
    ((run new_limiter history).active_global ≡ 4)
    × ((run new_limiter history).waiters ≡ [])
    × (keep (belongs 1) (run new_limiter history).resolved ≡ keep (belongs 1) (requested history))
unfolding limiting
history_tests = (refl, refl, refl)

run-Inv_example : Inv (run new_limiter history)
run-Inv_example = run-Inv history

run-fifo_example : line_of 1 (run new_limiter history) ≡ keep (belongs 1) (requested history)
run-fifo_example = run-fifo 1 history

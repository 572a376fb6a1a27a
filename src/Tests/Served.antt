-- ===== src/Tests/Served.antt =====
-- The API server at the small deployment.
use rescue_proxy.Prelude.{[], ◌≡◌, true, refl}
use rescue_proxy.Cache.Maps.{MapsCache}
use rescue_proxy.Cache.Maps.Laws.{maps_laws}
use rescue_proxy.Api.{Api}
use rescue_proxy.Api.Laws.{Answered, get_rocket_pool_nodes-Answered}
use rescue_proxy.Tests.Fixtures.{el}

abbrev api : Api MapsCache
api = record { el = el; m = [] }

healthy : maps_laws.healthy api.el.cache ≡ true
unfolding maps_laws
healthy = refl

get_rocket_pool_nodes-Answered_example : Answered maps_laws api
get_rocket_pool_nodes-Answered_example = get_rocket_pool_nodes-Answered maps_laws api healthy

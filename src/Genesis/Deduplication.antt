-- ===== src/Genesis/Deduplication.antt =====
-- genesis/service.py: a request under a deduplication key that was seen.
use ghostmesh.Prelude.{
  ◌≡◌, lookup, lookup-insert_self, nat_eq, string_eq, arith, Option-cases, inl, inr,
}
use ghostmesh.Result.{ok}
use ghostmesh.Domain.Registry.{GenesisIntent}
use ghostmesh.Genesis.{Genesis, Request, GenesisEnv, get, with_candidates, receive_intent}

-- After a request has returned an intent, a further request under the same key, whatever else it asks
-- for, returns that intent and changes nothing.
pub receive_intent_again :
    (env env' : GenesisEnv) (r r' : Request) (g g' : Genesis) (i : GenesisIntent)
    → r'.deduplication_key ≡ r.deduplication_key
    → receive_intent env r g ≡ (ok i, g')
    → receive_intent env' r' g' ≡ (ok i, g')
unfolding receive_intent get
receive_intent_again env env' r r' g g' i same h =
    elim (Option-cases (lookup r.deduplication_key g.deduplication_index)) [
      | inr (id, seen) ↦ rw same (ground (arith, seen))
      | inl fresh ↦
          let intent = with_candidates env r g.registry in
          ground (
            arith,
            fresh,
            same,
            lookup-insert_self r.deduplication_key intent.id g.deduplication_index,
            lookup-insert_self intent.id intent g.intents,
          )
    ]

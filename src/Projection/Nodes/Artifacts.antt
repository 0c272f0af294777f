-- ===== src/Projection/Nodes/Artifacts.antt =====
-- The artifacts of a node (projection.ts): one entry for each id and version.
use reticle.Common.{
  same_iff, List, [], ◌∷◌, Option, none, some, true, false, ◌≡◌, ◌↔◌, All, arith, Bool-cases, inl,
  inr,
}
use reticle.Json.{ℤ}
use reticle.Events.{RuntimeEvent}
use reticle.Projection.{ArtifactRef, RunNode, ProjectionState, create_node}
use reticle.Projection.Invariant.{NodeWrite, artifact, keep, node_write}
use reticle.Projection.Health.{interrupt_node}
use reticle.Projection.Artifacts.{put_artifact, same_artifact, same_version, same_number}
use reticle.Projection.Fold.{apply_events}
use reticle.Projection.Nodes.{IsKept, AllNodes, apply_events-AllNodes}

pub same_number_iff : (a b : ℤ) → (same_number a b ≡ true) ↔ (a ≡ b)
unfolding same_number
same_number_iff a b = ground arith

pub same_version_iff : (a b : Option ℤ) → (same_version a b ≡ true) ↔ (a ≡ b)
unfolding same_version
same_version_iff none none = ground arith
same_version_iff none (some b) = ground arith
same_version_iff (some a) none = ground arith
same_version_iff (some a) (some b) = ground (arith, same_number_iff a b)

-- No entry stands for the same id and version as an earlier one.
abbrev pub HasDistinct : List ArtifactRef → Type 0
HasDistinct [] = Unit
HasDistinct (a ∷ rest) = All (λ b. same_artifact b a ≡ false) rest × HasDistinct rest

All-put_artifact :
    (ref a : ArtifactRef) (rest : List ArtifactRef)
    → same_artifact ref a ≡ false
    → All (λ b. same_artifact b a ≡ false) rest
    → All (λ b. same_artifact b a ≡ false) (put_artifact ref rest)
unfolding put_artifact
All-put_artifact ref a [] p h = (p, tt)
All-put_artifact ref a (x ∷ rest) p (q, h) = ground (arith, All-put_artifact ref a rest p h)

All-same :
    (ref a : ArtifactRef) (rest : List ArtifactRef)
    → same_artifact a ref ≡ true
    → All (λ b. same_artifact b a ≡ false) rest
    → All (λ b. same_artifact b ref ≡ false) rest
All-same ref a [] p h = tt
All-same ref a (x ∷ rest) p (q, h) = ground (
  arith,
  All-same ref a rest p h,
  same_iff a.id ref.id,
  same_iff x.id ref.id,
  same_iff x.id a.id,
  same_version_iff a.version ref.version,
  same_version_iff x.version ref.version,
  same_version_iff x.version a.version,
)

same_artifact_sym : (a b : ArtifactRef) → same_artifact a b ≡ false → same_artifact b a ≡ false
same_artifact_sym a b h = ground (
  arith,
  same_iff a.id b.id,
  same_iff b.id a.id,
  same_version_iff a.version b.version,
  same_version_iff b.version a.version,
)

put_artifact-HasDistinct :
    (ref : ArtifactRef) (refs : List ArtifactRef)
    → HasDistinct refs
    → HasDistinct (put_artifact ref refs)
unfolding put_artifact
put_artifact-HasDistinct ref [] h = (tt, tt)
put_artifact-HasDistinct ref (a ∷ rest) (q, h) = elim (Bool-cases (same_artifact a ref)) [
  | inl e ↦ rw e (All-same ref a rest e q, h)
  | inr e ↦ rw e (
    All-put_artifact ref a rest (same_artifact_sym a ref e) q,
    put_artifact-HasDistinct ref rest h,
  )
]

written-HasDistinct :
    (w : NodeWrite) (node : RunNode)
    → HasDistinct node.artifacts
    → HasDistinct (node_write w node).artifacts
unfolding interrupt_node
written-HasDistinct keep node h = h
written-HasDistinct (artifact ref producer) node h =
    ground (arith, put_artifact-HasDistinct ref node.artifacts h)
written-HasDistinct w node h = ground arith

HasDistinct-kept : IsKept (λ e n node. HasDistinct node.artifacts)
unfolding create_node
HasDistinct-kept = record { created = λ e n t. tt; written = λ e n. written-HasDistinct }

-- However often an artifact is reported, a node lists one entry for each id and version.
pub apply_events-HasDistinct :
    (state : ProjectionState) (events : List RuntimeEvent)
    → AllNodes (λ e n node. HasDistinct node.artifacts) state.runs
    → AllNodes (λ e n node. HasDistinct node.artifacts) (apply_events state events).runs
apply_events-HasDistinct = apply_events-AllNodes HasDistinct-kept

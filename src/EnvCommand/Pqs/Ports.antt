-- ===== src/EnvCommand/Pqs/Ports.antt =====
-- Port mappings: `portMappingHostSegment` in cli/cmd/canton-localnet/env.go.
use canton_localnet.Base.{
  ◌≡◌, refl, ap, false, Text, [], ◌∷◌, ◌++◌, arith, any, ◌==◌, split, split_step, split-append,
}
use canton_localnet.EnvCommand.Pqs.{second_to_last, port_mapping_host_segment}

split-none : (s : Text) → any (λ c. c == b':') s ≡ false → split b':' s ≡ s ∷ []
unfolding split split_step any
split-none [] h = refl
split-none (c ∷ s) h = ground (arith, split-none s)

-- The host port of a mapping is what stands before the container's port, whether or not an
-- address stands in front.
pub port_mapping_host_segment_lem :
    (address host container : Text)
    → any (λ c. c == b':') address ≡ false
    → any (λ c. c == b':') host ≡ false
    → any (λ c. c == b':') container ≡ false
    → (port_mapping_host_segment host ≡ host)
      × (port_mapping_host_segment (host ++ (b':' ∷ container)) ≡ host)
      × (port_mapping_host_segment (address ++ (b':' ∷ (host ++ (b':' ∷ container)))) ≡ host)
unfolding port_mapping_host_segment second_to_last
port_mapping_host_segment_lem address host container a h c = (
  ap second_to_last (split-none host h),
  rw (split-append b':' host container h, split-none container c) refl,
  rw
      (
        split-append b':' address (host ++ (b':' ∷ container)) a,
        split-append b':' host container h,
        split-none container c,
      )
      refl,
)

-- ===== src/Envelope/Tests.antt =====
-- Loading the sample shard.
use axm_embodied.Common.{◌≡◌, refl, true, ok}
use axm_embodied.Envelope.{
  load, read_envelope, read_labels, read_claims, read_claim, read_bound, build_envelope,
}
use axm_embodied.Envelope.Load.{IsLoaded, load-IsLoaded}
use axm_embodied.Envelope.Samples.{kernel, lab_key, shard, envelope}

loads : load kernel shard lab_key ≡ ok envelope
unfolding load read_envelope read_labels read_claims read_claim read_bound build_envelope
loads = refl

load-IsLoaded_example : (kernel.verify_shard shard lab_key ≡ true) × IsLoaded kernel shard envelope
load-IsLoaded_example = load-IsLoaded kernel shard lab_key envelope loads

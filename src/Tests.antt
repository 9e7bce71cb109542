-- ===== src/Tests.antt =====
-- Runs of the model on concrete inputs, and the theorems at inputs that meet their hypotheses.
mod Toy
mod Runs
mod Witnesses
mod Sessions
mod Handshakes
mod Talks
mod Programs
mod Matching
mod Completes
mod Resolvers
mod NativeResolvers
mod Digests

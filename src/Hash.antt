-- ===== src/Hash.antt =====
-- ifc/lib/hash/hash.c: the hash table behind the user, group and category lists. `USE_LOCK` is
-- defined nowhere in the build. Entries come from `malloc`, keys from the pool.
pub mod Code
pub mod Table
pub mod Key
pub mod Murmur
mod Tests

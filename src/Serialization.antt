-- ===== src/Serialization.antt =====
-- Messages as bytes: src/rmw_serialize.c, and the name of the format, which
-- src/rmw_get_serialization_format.c returns.
pub mod Codec
pub mod Write
pub mod Read
pub mod Memory
pub mod Layout
pub mod Writes
pub mod Reads
pub mod RoundTrip
pub mod Messages
use https_github_com_nightdu.Base.{String}

abbrev pub hazcat_serialization_format : String
hazcat_serialization_format = "shared_memory"

abbrev pub rmw_get_serialization_format : String
rmw_get_serialization_format = hazcat_serialization_format

-- ===== src/Nodes.antt =====
-- datanode/models.py, datanode/adapters.py and datanode/repository.py: the tunnel as a validated
-- node and as a JSON record on disk.
pub mod Json
pub mod Library
pub mod Command
pub mod Model
pub mod Decode
pub mod Encode
pub mod Endpoint
pub mod Sides
pub mod Reads
pub mod Over
pub mod Belongs
pub mod Fresh
pub mod RoundTrip
pub mod Resave
pub mod Repository
pub mod Saved
pub mod Examples

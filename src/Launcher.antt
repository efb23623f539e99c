-- ===== src/Launcher.antt =====
-- The launcher, src/launcher/eosio-launcher2/main.cpp.
pub mod Ndx
pub mod Walk
pub mod Network
pub mod Ring
pub mod RingCorrect
pub mod Skip
pub mod SkipReaches
pub mod Mesh
pub mod MeshLinks
pub mod Peers
pub mod MeshPeers
pub mod Star
pub mod StarEnds
pub mod StarDistinct
pub mod ProducerName
pub mod ProducerNameLaws
pub mod Host
pub mod Bind
pub mod BindCorrect
pub mod Define
pub mod DefineCorrect
pub mod Counts
pub mod Local
pub mod Servers
pub mod ServersFilled
pub mod ServersPlaced
pub mod Run
pub mod Ssh
pub mod SshSafety
pub mod Files
pub mod FilesSafety
pub mod Nodes
pub mod Command
pub mod NodesFound
pub mod CommandOrder
pub mod Modes
pub mod Kill
pub mod KillModes
pub mod Start
pub mod StartRecords
pub mod Started
pub mod StartLaunched
pub mod StartSaves
pub mod Config
pub mod Settings
pub mod ConfigParts
pub mod ConfigFile
pub mod Connections

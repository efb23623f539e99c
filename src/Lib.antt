-- ===== src/Lib.antt =====
-- Verification of eos-tools, the command line tools around an eosio chain.
--
-- The parts and their files:
--   Prelude (and Prelude/): the libraries' names, Boolean tests on numbers, lists, strings, and the
--     arithmetic of uint16_t, uint32_t and size_t, every result reduced modulo 2 ^ w, and of int,
--     of which an overflow is undefined.
--   Merkle (and Merkle/): src/merkle/incremental_merkle.cpp. Chain is sim_block and the two lookups
--     by number, Node the walks over the active nodes and the value of a node, Position the
--     positions on the way up, Path the path from a block to an anchor block and
--     verify_merkle_path, Sim main. Digest holds what eosio and fc provide: hashes, their equality,
--     canonical marks, incremental_merkle::append and the depth of a tree, with the laws that the
--     code relies on. Tree states the specification, one merkle tree over all ids, of which each
--     incremental tree holds the full branches. Layers is print_merkle_tree, which takes the number
--     of digests as its rounds. The other files are proofs.
--   Launcher (and Launcher/): src/eosio-launcher2/main.cpp. The network: Host has host_def,
--     eosd_def and their ports, Define assign_name and define_network for one host, ProducerName
--     producer_names::producer_name, Bind bind_nodes and the schedule of write_setprods_file,
--     Network the map of nodes, Counts the node counts of initialize, Ndx is_bios_ndx, start_ndx
--     and next_ndx, Skip skip_ndx, and Ring, Mesh and Star make_ring, make_mesh and make_star
--     after their call of bind_nodes, make_star from four nodes beside bios on. Walk, RingCorrect,
--     SkipReaches, MeshLinks, MeshPeers, StarEnds, StarDistinct, BindCorrect, DefineCorrect,
--     ProducerNameLaws and Local are proofs. define_network names the nodes and gives them ports,
--     bind_nodes makes the map of nodes and allots the producers, make_ring, make_mesh and
--     make_star add the peers; Peers has what is common to their proofs. Servers has load_servers
--     and define_network over the servers of a file, ServersFilled and ServersPlaced its proofs.
--     What it does to its surroundings: Run is the monad of actions on processes and files, with
--     rules on what a run keeps (Keeps) and on what leaves the list of running nodes as it is
--     (Leaves). Ssh has format_ssh, do_ssh, compose_scp_command and prep_remote_config_dir, Files
--     find_host and deploy_config_files, Nodes find_node and get_nodes, Command do_command,
--     bounce, down and roll, Modes the launch_modes and the choices of main, Kill kill, Start
--     launch and start_all, Config the connection modes of initialize and write_config_file.
--     SshSafety, FilesSafety, NodesFound, CommandOrder, KillModes, StartRecords, Started,
--     StartLaunched, StartSaves, Settings, ConfigParts, ConfigFile and Connections are proofs.
--     start_all launches the instances of the hosts, launch deploys the configuration and runs the
--     node, and kill, bounce and down work on the nodes so launched.
--   BlockLog (and BlockLog/): src/eosio-blocklog2/blocklog.cpp, read_log. The block log, the
--     database of reversible blocks and the text of an item are parameters.
--   ForkDb (and ForkDb/): src/eosio-forkdb/forkdb.cpp. Read has read_log, Options the table of
--     set_program_options, Run the actions on files with exceptions, Main initialize and main, which
--     copies the file of the database into the directory tmp, calls read_log there and removes tmp.
--     Walk, Only and Temporary are proofs. The fork database, the file system, what boost reads of
--     the options and the text of an item are parameters.
--   Pbft (and Pbft/): src/eosio-pbftdb/pbftlog.cpp and pbft_database.hpp, and
--     src/eosio-checkpoints/checkpoints.cpp and checkpoints.hpp. Types has the states and the
--     orders of their indexes, Index a multi-index container behind its laws, Read both read_log,
--     Printed the proofs. The container, unpack of a file and the text of a state are parameters.
--   Bytes (and Bytes/): src/merkle/merkle.cpp, to_vector and vector_eq. Decimal has the hexadecimal
--     text of bytes, as fc::to_hex writes it, and the proofs.
--   Tests: witnesses and runs on small inputs.
--
-- Conventions. Option stands for code that may have undefined behaviour, throw or end the program;
-- the comment of a file says which. Launcher/Run keeps these apart as an Outcome, beside the list
-- of the actions so far; its World is a parameter, what the file system and the shell answer to
-- the last of these actions. Loops recurse on a list or on a number of rounds: define_network,
-- next_ndx and make_ring on total_nodes, as the walk visits an index once; both read_log on 2 ^
-- 32, the count of block numbers. The theorems say that the result is there, so the rounds do;
-- where a loop of make_star may not end, its result is a Loop, which is running when the rounds do
-- not do. Names are native strings, and boost::lexical_cast and the operator / on paths are
-- parameters.
--
-- Not modelled: the option tables but that of forkdb, the launcher's custom shape and generate, the
-- files that it writes but for config.ini, setprods.json and last_run.json; main of
-- src/merkle/merkle.cpp, a run over constants; inc_merkle_verify, generate_inc_merkle and
-- dump_inc_merkle of src/merkle/incremental_merkle.cpp, which main does not call; the indexes of the
-- pbft database that its tool does not print.
pub mod Prelude
pub mod Merkle
pub mod Launcher
pub mod BlockLog
pub mod ForkDb
pub mod Pbft
pub mod Bytes
pub mod Tests

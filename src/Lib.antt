-- ===== src/Lib.antt =====
-- Models of the Python programs of the saarCTF game server, and proofs of what they do.
--
-- The program. The control server runs a game in ticks. Its master timer (controlserver/timer.py)
-- keeps the number and the times of the tick, tells Redis and the other processes about them, and
-- sends events when the game or a tick starts or ends. With these events checker scripts are
-- dispatched (controlserver/dispatcher.py), bans are lifted and the network is opened
-- (controlserver/vpncontrol.py, controlserver/events_impl.py), and at the end of a tick the results
-- are collected, the points and ranks calculated (controlserver/scoring) and the files of the
-- scoreboard written (scoreboard.py in the same directory). A worker runs the checker scripts
-- (checker_runner). On the VPN servers a script turns the state of the network into rules of iptables
-- (vpn/manage-iptables.py), a tool keeps the servers of the teams in order (vpn/vpnctl.py), a program
-- takes the interfaces of WireGuard and their peers from a web server (wireguard-sync), and a daemon
-- follows the state of the network and writes into the database who is connected (vpnboard). All of
-- them read the addresses of the teams from the configuration (saarctf_commons/config.py).
--
-- Files and code:
--   Prelude            names of the libraries that all modules use; Boolean tests, lists, results, integers
--   Timer              controlserver/timer.py. State has the attributes of CTFTimerBase, Redis its
--                      keys and messages (init_from_redis, __listen_for_redis_events), Master the
--                      methods of CTFTimer with the events as a list of effects, Slave those of
--                      CTFTimerSlave as messages, System the steps of the master: its methods,
--                      requests of slaves, calls of check_time at given readings of the clock.
--                      Phases, Ticks, Limit, Schedule, Recovery and Requests have the proofs, View a
--                      case distinction on check_time.
--   Scoring/Float      Python's float as a type with an order; no law of arithmetic is assumed
--   Scoring/Points     the records of the scoring (controlserver/models.py and
--                      controlserver/scoring/algorithms/algorithm.py)
--   Scoring/Tick       ScoreTickAlgorithmBase of algorithm.py, one function for each step
--   Scoring/Algorithms the formulas of saarctf.py and playground.py in the same directory
--   Scoring/Ranking    _order_by_points of controlserver/scoring/scoring.py
--   Scoring/Filtered   FilteredScoringCalculation of filtered_scoring.py there; Sorted and Gaps have the
--                      proofs
--   Scoring/Calculation
--                      the queries, commits and rollbacks of ScoringCalculation in the same file, on
--                      tables that are lists of rows; Submissions, Stored, Captures, Marks and Ticks
--                      have the proofs, up to the counts over many ticks
--   Scoring/FirstBlood controlserver/scoring/algorithms/firstblood.py, Default and Multi
--   Dispatcher         controlserver/dispatcher.py, with the states of Celery's tasks as a data type
--   Vpn/Network        VPNControl of controlserver/vpncontrol.py and VPNCTFEvents of
--                      controlserver/events_impl.py, with the messages they publish
--   Vpn/Firewall       IpTablesManager and manage_iptables of vpn/manage-iptables.py
--   Vpn/Ctl            vpn/vpnctl.py: System the services and the database, Check the check of a
--                      team, Fix the commands, with the scripts that a stopped OpenVPN server runs
--   Vpn/Connections    vpn/on-connect.py, on-disconnect.py and on-cloud-*.py on the rows of the teams
--   Vpn/Watch          VpnStatusThread of vpnboard/vpn_status_daemon.py, on the messages of Vpn/Network
--   Vpn/Status         vpnboard/wg_status.py and VpnStatusDaemon.update_team_wireguard_status, and
--                      vpn/reset-connection-status.py, on the rows of the teams
--   Config             NetworkConfig of saarctf_commons/config.py: Loading reads and writes it,
--                      Intervals and Search are the loops of network_ip_to_id, Teams and Addresses
--                      have the proofs
--   Wireguard          wireguard-sync/wireguard_sync: Peers is sync_peers of network_lib.py, Retry and
--                      Manager are InterfaceManager and KeyStore of __init__.py; Kernel is a kernel
--                      and a server that have the assumed laws
--   Scoreboard         controlserver/scoring/scoreboard.py: the file of a tick with the freeze,
--                      FirstBloods the marks, Statistics the files of teams and services; Entries and
--                      Frozen have the proofs
--   Runner             checker_runner/runners/eno.py: Slots is gen_timeslots_flat, Eno the runner with
--                      its queries, Eno/Handling what it does with a result, Eno/Tasks the tasks of a
--                      tick; Clear, Delays, Verdict, Pairs, Enough and Distance have the proofs
-- The modules named Examples have tests, and each result that has conditions at a concrete input.
--
-- State is passed explicitly, exceptions are `none` or a failed world, sets and dictionaries are
-- lists or functions. Times are natural numbers of seconds (tenths in the dispatcher, seconds divided
-- by the number of tasks in the runner). Addresses of the configuration are lists of four numbers.
-- Parameters stand for what is not in the repository: floats, iptables, systemctl, random.shuffle,
-- the kernel's WireGuard and the web server that requests its peers, each with its documented
-- behaviour as laws.
--
-- Most loops run over lists. The loop that deletes a rule of iptables until there is none has fuel:
-- one more than the number of copies of the rule, since each round deletes one. The loops of
-- network_ip_to_id over candidates for a team have fuel for the distance to 65535, since the candidate
-- grows with each round. The loop of retry has four rounds, since each but the last counts an error, up
-- to the limit of three. The swaps of gen_timeslots_flat have the source's 20 rounds.
--
-- Not modelled: threads (messages are handled in the order in which they were published), the
-- retries after an SQL error, logging, texts of messages, the web interface (controlserver/endpoints),
-- the static files of the scoreboard, its frontend and its process, the other runners
-- of checker scripts with processes and packages, rounding of the times of tasks, the other
-- sections of the configuration, the endless loop of wireguard-sync and the removal of interfaces, the
-- pings and pages of vpnboard, the other scripts of vpn and scripts, the migrations, and the flag
-- submission server, which is a C++ program.
mod Prelude
pub mod Timer
pub mod Scoring
pub mod Vpn
pub mod Dispatcher
pub mod Config
pub mod Wireguard
pub mod Scoreboard
pub mod Runner

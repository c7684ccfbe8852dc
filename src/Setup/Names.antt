-- ===== src/Setup/Names.antt =====
-- The arrays of luaL_Reg of src/: the names under which each module and class offers its functions.
use rava.Base.{List, [], ◌∷◌, codes}
use rava.Setup.{Reg, reg}

-- rava_funcs
unfoldable pub core_funcs : List Reg
core_funcs =
    reg (codes "serialize") (codes "rava_serialize")
    ∷ reg (codes "unserialize") (codes "rava_unserialize")
    ∷ []

-- rava_fs_funcs
unfoldable pub fs_funcs : List Reg
fs_funcs =
    reg (codes "open") (codes "rava_fs_open")
    ∷ reg (codes "unlink") (codes "rava_fs_unlink")
    ∷ reg (codes "mkdir") (codes "rava_fs_mkdir")
    ∷ reg (codes "rmdir") (codes "rava_fs_rmdir")
    ∷ reg (codes "scandir") (codes "rava_fs_scandir")
    ∷ reg (codes "stat") (codes "rava_fs_stat")
    ∷ reg (codes "rename") (codes "rava_fs_rename")
    ∷ reg (codes "sendfile") (codes "rava_fs_sendfile")
    ∷ reg (codes "chmod") (codes "rava_fs_chmod")
    ∷ reg (codes "chown") (codes "rava_fs_chown")
    ∷ reg (codes "utime") (codes "rava_fs_utime")
    ∷ reg (codes "lstat") (codes "rava_fs_lstat")
    ∷ reg (codes "link") (codes "rava_fs_link")
    ∷ reg (codes "symlink") (codes "rava_fs_symlink")
    ∷ reg (codes "readlink") (codes "rava_fs_readlink")
    ∷ reg (codes "cwd") (codes "rava_fs_cwd")
    ∷ reg (codes "chdir") (codes "rava_fs_chdir")
    ∷ reg (codes "exepath") (codes "rava_fs_exepath")
    ∷ reg (codes "home") (codes "rava_fs_home")
    ∷ []

-- rava_file_meths
unfoldable pub file_meths : List Reg
file_meths =
    reg (codes "read") (codes "rava_file_read")
    ∷ reg (codes "write") (codes "rava_file_write")
    ∷ reg (codes "close") (codes "rava_file_close")
    ∷ reg (codes "stat") (codes "rava_file_stat")
    ∷ reg (codes "sync") (codes "rava_file_sync")
    ∷ reg (codes "utime") (codes "rava_file_utime")
    ∷ reg (codes "chmod") (codes "rava_file_chmod")
    ∷ reg (codes "chown") (codes "rava_file_chown")
    ∷ reg (codes "datasync") (codes "rava_file_datasync")
    ∷ reg (codes "truncate") (codes "rava_file_truncate")
    ∷ reg (codes "__gc") (codes "rava_file_free")
    ∷ reg (codes "__tostring") (codes "rava_file_tostring")
    ∷ []

-- rava_process_funcs
unfoldable pub process_funcs : List Reg
process_funcs =
    reg (codes "self") (codes "rava_process_self")
    ∷ reg (codes "sleep") (codes "rava_process_sleep")
    ∷ reg (codes "title") (codes "rava_process_title")
    ∷ []

-- rava_cond_meths
unfoldable pub cond_meths : List Reg
cond_meths =
    reg (codes "wait") (codes "rava_cond_wait")
    ∷ reg (codes "signal") (codes "rava_cond_signal")
    ∷ reg (codes "broadcast") (codes "rava_cond_broadcast")
    ∷ reg (codes "__gc") (codes "rava_cond_free")
    ∷ reg (codes "__tostring") (codes "rava_cond_tostring")
    ∷ []

-- rava_fiber_meths
unfoldable pub fiber_meths : List Reg
fiber_meths =
    reg (codes "join") (codes "rava_fiber_join")
    ∷ reg (codes "ready") (codes "rava_fiber_ready")
    ∷ reg (codes "__gc") (codes "rava_fiber_free")
    ∷ reg (codes "__tostring") (codes "rava_fiber_tostring")
    ∷ []

-- rava_idle_meths
unfoldable pub idle_meths : List Reg
idle_meths =
    reg (codes "start") (codes "rava_idle_start")
    ∷ reg (codes "stop") (codes "rava_idle_stop")
    ∷ reg (codes "wait") (codes "rava_idle_wait")
    ∷ reg (codes "__gc") (codes "rava_idle_free")
    ∷ reg (codes "__tostring") (codes "rava_idle_tostring")
    ∷ []

-- rava_spawn_meths
unfoldable pub spawn_meths : List Reg
spawn_meths =
    reg (codes "kill") (codes "rava_spawn_kill")
    ∷ reg (codes "__gc") (codes "rava_spawn_free")
    ∷ reg (codes "__tostring") (codes "rava_spawn_tostring")
    ∷ []

-- rava_thread_meths
unfoldable pub thread_meths : List Reg
thread_meths =
    reg (codes "join") (codes "rava_thread_join")
    ∷ reg (codes "__gc") (codes "rava_thread_free")
    ∷ reg (codes "__tostring") (codes "rava_thread_tostring")
    ∷ []

-- rava_timer_meths
unfoldable pub timer_meths : List Reg
timer_meths =
    reg (codes "start") (codes "rava_timer_start")
    ∷ reg (codes "again") (codes "rava_timer_again")
    ∷ reg (codes "stop") (codes "rava_timer_stop")
    ∷ reg (codes "wait") (codes "rava_timer_wait")
    ∷ reg (codes "__gc") (codes "rava_timer_free")
    ∷ reg (codes "__tostring") (codes "rava_timer_tostring")
    ∷ []

-- rava_socket_funcs
unfoldable pub socket_funcs : List Reg
socket_funcs = reg (codes "dnsresolve") (codes "rava_dns_resolve") ∷ []

-- rava_stream_meths
unfoldable pub stream_meths : List Reg
stream_meths =
    reg (codes "read") (codes "rava_stream_read")
    ∷ reg (codes "readable") (codes "rava_stream_readable")
    ∷ reg (codes "write") (codes "rava_stream_write")
    ∷ reg (codes "writable") (codes "rava_stream_writable")
    ∷ reg (codes "start") (codes "rava_stream_start")
    ∷ reg (codes "stop") (codes "rava_stream_stop")
    ∷ reg (codes "listen") (codes "rava_stream_listen")
    ∷ reg (codes "accept") (codes "rava_stream_accept")
    ∷ reg (codes "shutdown") (codes "rava_stream_shutdown")
    ∷ reg (codes "close") (codes "rava_stream_close")
    ∷ reg (codes "__gc") (codes "rava_stream_free")
    ∷ reg (codes "__tostring") (codes "rava_stream_tostring")
    ∷ []

-- rava_pipe_meths
unfoldable pub pipe_meths : List Reg
pipe_meths =
    reg (codes "open") (codes "rava_pipe_open")
    ∷ reg (codes "bind") (codes "rava_pipe_bind")
    ∷ reg (codes "connect") (codes "rava_pipe_connect")
    ∷ reg (codes "__tostring") (codes "rava_pipe_tostring")
    ∷ []

-- rava_udp_meths
unfoldable pub udp_meths : List Reg
udp_meths =
    reg (codes "bind") (codes "rava_udp_bind")
    ∷ reg (codes "send") (codes "rava_udp_send")
    ∷ reg (codes "recv") (codes "rava_udp_recv")
    ∷ reg (codes "membership") (codes "rava_udp_membership")
    ∷ reg (codes "__gc") (codes "rava_udp_free")
    ∷ reg (codes "__tostring") (codes "rava_udp_tostring")
    ∷ []

-- rava_tcp_meths
unfoldable pub tcp_meths : List Reg
tcp_meths =
    reg (codes "bind") (codes "rava_tcp_bind")
    ∷ reg (codes "connect") (codes "rava_tcp_connect")
    ∷ reg (codes "getsockname") (codes "rava_tcp_getsockname")
    ∷ reg (codes "getpeername") (codes "rava_tcp_getpeername")
    ∷ reg (codes "keepalive") (codes "rava_tcp_keepalive")
    ∷ reg (codes "nodelay") (codes "rava_tcp_nodelay")
    ∷ reg (codes "__tostring") (codes "rava_tcp_tostring")
    ∷ []

-- rava_system_funcs
unfoldable pub system_funcs : List Reg
system_funcs =
    reg (codes "cpus") (codes "rava_system_cpus")
    ∷ reg (codes "load") (codes "rava_system_load")
    ∷ reg (codes "memory") (codes "rava_system_memory")
    ∷ reg (codes "interfaces") (codes "rava_system_interfaces")
    ∷ reg (codes "microtime") (codes "rava_system_microtime")
    ∷ reg (codes "uptime") (codes "rava_system_uptime")
    ∷ []

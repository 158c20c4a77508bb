-- ===== src/Http/Listener.antt =====
-- network/http_server/http_server.c: the listening socket of the server.
--
-- A TCP_SERVER_T is whether its server_pcb is set; lwIP's pcbs are counted.
use pico_stairway_controller.Base.{
  ℕ, ◌+◌, not, if◌then◌else◌, Bool, true, false, Option, none, some,
}
use pico_stairway_controller.Types.{ErrCode}

pub record Pcbs : Type 0 where
  pub opened : ℕ
  pub closed : ℕ

pub record TcpServer : Type 0 where
  pub server_pcb : Bool

-- Whether tcp_new_ip_type and tcp_listen_with_backlog give a pcb, and tcp_bind succeeds.
pub record TcpAnswers : Type 0 where
  pub new_ok : Bool
  pub bind_ok : Bool
  pub listen_ok : Bool

abbrev pub tcp_new : Pcbs → Pcbs
tcp_new pcbs = record pcbs { opened = pcbs.opened + 1 }

abbrev pub tcp_close : Pcbs → Pcbs
tcp_close pcbs = record pcbs { closed = pcbs.closed + 1 }

-- tcp_listen_with_backlog puts a listening pcb in the place of the pcb that it gets.
unfoldable pub tcp_server_open : TcpAnswers → TcpServer → Pcbs → ErrCode × TcpServer × Pcbs
tcp_server_open answers server pcbs =
    if not answers.new_ok
    then (ErrCode.fail, server, pcbs)
    else if not answers.bind_ok
    then (ErrCode.fail, server, tcp_close (tcp_new pcbs))
    else if not answers.listen_ok
    then (ErrCode.fail, record { server_pcb = false }, tcp_close (tcp_new pcbs))
    else (ErrCode.success, record { server_pcb = true }, tcp_new pcbs)

unfoldable pub tcp_server_close : TcpServer → Pcbs → TcpServer × Pcbs
tcp_server_close server pcbs =
    if server.server_pcb then (record { server_pcb = false }, tcp_close pcbs) else (server, pcbs)

-- NULL is `none`.
unfoldable pub http_server_init :
    TcpAnswers → Option TcpServer → Pcbs → ErrCode × Option TcpServer × Pcbs
http_server_init answers none pcbs = (ErrCode.param_is_null, none, pcbs)
http_server_init answers (some server) pcbs =
    let (err, server, pcbs) = tcp_server_open answers server pcbs in (err, some server, pcbs)

unfoldable pub http_server_deinit : Option TcpServer → Pcbs → ErrCode × Option TcpServer × Pcbs
http_server_deinit none pcbs = (ErrCode.param_is_null, none, pcbs)
http_server_deinit (some server) pcbs =
    let (server, pcbs) = tcp_server_close server pcbs in (ErrCode.success, some server, pcbs)

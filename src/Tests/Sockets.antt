-- ===== src/Tests/Sockets.antt =====
-- The search for a port, and listeners, on sockets that are a list of the ports in use.
use sipgox.Prelude.{inr, none, false, [], ◌∷◌}
use sipgox.Prelude.Int.{pos}
use sipgox.Text.{codes}
use sipgox.Listeners.{ListenAddr, Streams, Resolver, create_server_listeners}
use sipgox.Listeners.Free.{KeepsStreams}
use sipgox.Listeners.Opened.{AllOpened, create_server_listeners-AllOpened}
use sipgox.Tests.Descriptions.{no_ip6, host}
use sipgox.Tests.Listeners.{
  table, busy, table-IsLawful, listen_at, release, listen_at_refused, listen_at_undone,
}

abbrev pub stream_table : Streams table
stream_table = record {
  listen_stream = λ w a. listen_at w a a.port;
  close_stream = λ w c. release c.handle w;
}

pub stream_table-KeepsStreams : KeepsStreams stream_table
stream_table-KeepsStreams = record {
  stream_refused_clean = λ w w' a e h. listen_at_refused w w' a a.port e h;
  close_stream_undoes = λ w w' a c h. listen_at_undone w w' a a.port c h;
}

-- Every address is this host at port 4001 for datagrams, which is in use, and at 5060 for streams.
abbrev pub fixed : Resolver
fixed = record {
  parse_addr = λ s. (codes "192.168.0.7", pos 0, none);
  interfaces_ip = inr host;
  resolve_udp = λ s. inr (record { ip = host; port = pos 4001 });
  resolve_tcp = λ s. inr (record { ip = host; port = pos 5060 });
  addr_string = λ a. codes "192.168.0.7:5060";
  join_host_port = λ h p. h;
  is_loopback = λ ip. false;
}

abbrev pub over_tcp : ListenAddr
over_tcp = record { listen_network = codes "tcp"; listen_addr = codes "192.168.0.7:5060" }

abbrev over_udp : ListenAddr
over_udp = record { listen_network = codes "udp"; listen_addr = codes "192.168.0.7:4001" }

create_server_listeners-AllOpened_example :
    AllOpened table table-IsLawful stream_table stream_table-KeepsStreams no_ip6 fixed busy busy []
      (over_tcp ∷ over_udp ∷ [])
      (create_server_listeners table stream_table no_ip6 fixed
        (λ ip. codes "h")
        7
        busy
        (over_tcp ∷ over_udp ∷ []))
create_server_listeners-AllOpened_example =
    create_server_listeners-AllOpened table table-IsLawful stream_table stream_table-KeepsStreams
      no_ip6 fixed (λ ip. codes "h") 7 busy over_tcp (over_udp ∷ [])

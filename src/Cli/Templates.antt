-- ===== src/Cli/Templates.antt =====
-- cli.py: the texts of the files that the commands write.
use Prim.Native.String.{String, ◌++◌ as ◌<>◌}

abbrev pub gate_env_template : String
gate_env_template =
    "# Shared concurrency substrate environment (Gate).\n"
    <> ("GATE_STATE_DIR=/var/lib/gate\n"
        <> ("GATE_REPO_DIR=/opt/gate\n"
            <> ("GATE_MOUNT_DIR=/mnt/gate\n"
                <> ("GATE_BROKER_HOST=127.0.0.1\n"
                    <> ("GATE_BROKER_PORT=8787\n"
                        <> ("GATE_LEASE_MS=3600000\n"
                            <> ("GATE_MAX_HOLD_MS=3600000\n" <> ("GATE_FUSE_ALLOW_OTHER=0\n"))))))))

abbrev pub gate_broker_service_template : String
gate_broker_service_template =
    "[Unit]\n"
    <> ("Description=Gate Lock Broker (Shared Concurrency Substrate)\n"
        <> ("After=network.target\n"
            <> ("\n"
                <> ("[Service]\n"
                    <> ("Type=simple\n"
                        <> ("EnvironmentFile=/etc/gate/gate.env\n"
                            <> ("WorkingDirectory=${GATE_REPO_DIR}\n"
                                <> ("ExecStart=/bin/sh -c 'if [ -x /opt/gate/bin/gate ]; then /opt/gate/bin/gate broker --state-dir \"${GATE_STATE_DIR}\" --host \"${GATE_BROKER_HOST}\" --port \"${GATE_BROKER_PORT}\" --lease-ms \"${GATE_LEASE_MS}\" --max-hold-ms \"${GATE_MAX_HOLD_MS}\"; else /usr/bin/python3 \"${GATE_REPO_DIR}/scripts/gate_broker.py\" --state-dir \"${GATE_STATE_DIR}\" --host \"${GATE_BROKER_HOST}\" --port \"${GATE_BROKER_PORT}\" --lease-ms \"${GATE_LEASE_MS}\" --max-hold-ms \"${GATE_MAX_HOLD_MS}\"; fi'\n"
                                    <> ("Restart=always\n"
                                        <> ("User=gate\n"
                                            <> ("Group=gate\n"
                                                <> ("\n"
                                                    <> ("[Install]\n"
                                                        <> ("WantedBy=multi-user.target\n"))))))))))))))

abbrev pub gate_fuse_service_template : String
gate_fuse_service_template =
    "[Unit]\n"
    <> ("Description=Gate FUSE Mount (Shared Concurrency Substrate)\n"
        <> ("After=network.target gate-broker.service\n"
            <> ("Requires=gate-broker.service\n"
                <> ("\n"
                    <> ("[Service]\n"
                        <> ("Type=simple\n"
                            <> ("EnvironmentFile=/etc/gate/gate.env\n"
                                <> ("WorkingDirectory=${GATE_REPO_DIR}\n"
                                    <> ("ExecStartPre=/bin/mkdir -p ${GATE_MOUNT_DIR}\n"
                                        <> ("ExecStartPre=/bin/chown gate:gate ${GATE_MOUNT_DIR}\n"
                                            <> ("ExecStart=/bin/sh -c 'ALLOW_OTHER=\"\"; [ \"${GATE_FUSE_ALLOW_OTHER}\" = \"1\" ] && ALLOW_OTHER=\"--allow-other\"; if [ -x /opt/gate/bin/gate ]; then /opt/gate/bin/gate mount --root \"${GATE_REPO_DIR}\" --mount \"${GATE_MOUNT_DIR}\" --broker-host \"${GATE_BROKER_HOST}\" --broker-port \"${GATE_BROKER_PORT}\" --max-hold-ms \"${GATE_MAX_HOLD_MS}\" ${ALLOW_OTHER}; else /usr/bin/python3 \"${GATE_REPO_DIR}/scripts/gate_mount.py\" --root \"${GATE_REPO_DIR}\" --mount \"${GATE_MOUNT_DIR}\" --broker-host \"${GATE_BROKER_HOST}\" --broker-port \"${GATE_BROKER_PORT}\" --max-hold-ms \"${GATE_MAX_HOLD_MS}\" ${ALLOW_OTHER}; fi'\n"
                                                <> ("Restart=always\n"
                                                    <> ("User=gate\n"
                                                        <> ("Group=gate\n"
                                                            <> ("\n"
                                                            <> ("[Install]\n"
                                                            <> ("WantedBy=multi-user.target\n")))))))))))))))))

abbrev pub user_data_template : String
user_data_template =
    "#cloud-config\n"
    <> ("package_update: true\n"
        <> ("packages:\n"
            <> ("  - fuse\n"
                <> ("  - openssh-server\n"
                    <> ("  - python3\n"
                        <> ("  - python3-pip\n"
                            <> ("  - git\n"
                                <> ("  - rsync\n"
                                    <> ("  - curl\n"
                                        <> ("  - ca-certificates\n"
                                            <> ("\n"
                                                <> ("users:\n"
                                                    <> ("  - name: gate\n"
                                                        <> ("    sudo: ALL=(ALL) NOPASSWD:ALL\n"
                                                            <> ("    shell: /bin/bash\n"
                                                            <> ("    ssh_authorized_keys:\n"
                                                            <> ("      - __SSH_KEY__\n"
                                                            <> ("\n"
                                                            <> ("runcmd:\n"
                                                            <> ("  - mkdir -p /var/lib/gate /mnt/gate /etc/gate /opt/target\n"
                                                            <> ("  - chown gate:gate /var/lib/gate /mnt/gate /opt/target\n"
                                                            <> ("  - __CLONE_BLOCK__\n"
                                                            <> ("  - systemctl enable --now ssh\n"
                                                            <> ("  - __ENABLE_GATE_UNITS__\n"))))))))))))))))))))))))

abbrev pub meta_data_template : String
meta_data_template = "instance-id: __VM_NAME__\n" <> ("local-hostname: __VM_NAME__\n")

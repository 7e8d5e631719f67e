-- ===== src/I18n/Portuguese/Panel.antt =====
-- web/lib/i18n/extra-dept.ts: the Portuguese texts of the panel, first half.
use wgtemporary_email.Base.{String, [], ◌∷◌}
use wgtemporary_email.Base.Dict.{Dict}

abbrev pub pt_admin_first : Dict String
pt_admin_first =
    ("adminPanel", "Painel de administração")
    ∷ ("dashboard", "Painel")
    ∷ ("emails", "E-mails")
    ∷ ("addresses", "Endereços")
    ∷ ("domains", "Domínios")
    ∷ ("config", "Configuração")
    ∷ ("cleanup", "Limpeza")
    ∷ ("userSite", "Site do usuário")
    ∷ ("logout", "Sair")
    ∷ ("loginTitle", "Login do painel")
    ∷ ("loginDesc", "Digite o token de administrador do config.yaml")
    ∷ ("loginPlaceholder", "Token de administrador")
    ∷ ("loginBtn", "Entrar")
    ∷ ("loggingIn", "Entrando...")
    ∷ ("loginFailed", "Falha no login. Verifique a rede e tente novamente.")
    ∷ ("wrongToken", "Token de administrador incorreto. Verifique e tente novamente")
    ∷ ("loginLocalNote", "O token fica apenas no seu navegador, nunca é enviado a terceiros")
    ∷ ("activeAddresses", "Endereços ativos")
    ∷ ("totalAddressesSub", "{n} no total")
    ∷ ("totalEmails", "Total de e-mails")
    ∷ ("unreadSub", "Não lidos {n}")
    ∷ ("emails24h", "E-mails em 24h")
    ∷ ("attachmentsTotal", "Anexos")
    ∷ ("storageUsage", "Uso de armazenamento")
    ∷ ("storageCap", "Limite {n} MB")
    ∷ ("storageNoCap", "Sem limite")
    ∷ ("uptime", "Tempo ativo")
    ∷ ("lifetimeSub", "Validade do endereço {n}h")
    ∷ ("dbHealthy", "BD saudável")
    ∷ ("dbError", "Erro no BD")
    ∷ ("configuredDomains", "Domínios configurados ({n})")
    ∷ ("noDomains", "Nenhum domínio configurado")
    ∷ ("recentEmails", "E-mails recentes")
    ∷ ("recentAddresses", "Endereços recentes")
    ∷ ("viewAll", "Ver tudo")
    ∷ ("noEmails", "Sem e-mails")
    ∷ ("noAddresses", "Sem endereços")
    ∷ ("active", "Ativo")
    ∷ ("expired", "Expirado")
    ∷ ("permanent", "Permanente")
    ∷ ("neverExpires", "Nunca expira")
    ∷ ("emailsCount", "{n} e-mails")
    ∷ ("createdSub", "Criado {time}")
    ∷ ("noSubject", "(Sem assunto)")
    ∷ ("subject", "Assunto")
    ∷ ("fromCol", "De")
    ∷ ("toCol", "Destinatário")
    ∷ ("timeCol", "Hora")
    ∷ ("sizeCol", "Tamanho")
    ∷ ("actionsCol", "Ações")
    ∷ ("statusCol", "Status")
    ∷ ("emailCol", "Endereço de e-mail")
    ∷ ("emailCountCol", "E-mails")
    ∷ ("unreadCol", "Não lidos")
    ∷ ("createdCol", "Criado")
    ∷ ("expiresCol", "Expira")
    ∷ ("view", "Ver")
    ∷ ("delete", "Excluir")
    ∷ ("search", "Pesquisar")
    ∷ ("prev", "Anterior")
    ∷ ("next", "Próxima")
    ∷ ("pageOf", "Página {p} / {n}")
    ∷ ("totalItems", "{n} itens no total")
    ∷ ("loading", "Carregando...")
    ∷ ("loadFailed", "Falha ao carregar. Tente novamente.")
    ∷ ("sessionExpired", "Sessão expirada, faça login novamente")
    ∷ ("requestFailed", "Falha na requisição ({status})")
    ∷ ("tooManyRequests", "Muitas requisições, tente mais tarde")
    ∷ ("serverError", "Erro do servidor, tente mais tarde")
    ∷ ("uptimeDaysHours", "{d} d {h} h")
    ∷ ("uptimeHoursMinutes", "{h} h {m} min")
    ∷ ("uptimeMinutes", "{m} min")
    ∷ ("new", "Novo")
    ∷ ("emailsTitle", "Gerenciamento de e-mails")
    ∷ ("searchEmailsPlaceholder", "Pesquisar assunto / remetente / destinatário")
    ∷ ("deleteEmailConfirm", "Excluir este e-mail? Não pode ser desfeito.")
    ∷ ("dkimPass", "DKIM aprovado")
    ∷ ("dkimFail", "DKIM reprovado")
    ∷ ("attachmentsN", "{n} anexo(s)")
    ∷ ("attachments", "Anexos")
    ∷ ("noContent", "Sem conteúdo")
    ∷ ("viewRawHeaders", "Ver cabeçalhos originais")
    ∷ ("deleteThisEmail", "Excluir este e-mail")
    ∷ ("addressesTitle", "Gerenciamento de endereços")
    ∷ ("mailboxes", "Endereços permanentes")
    ∷ ("mbTitle", "Gestão de endereços permanentes")
    ∷ (
      "mbDesc",
      "Caixas sem expiração: o endereço é mantido para sempre e os e-mails são removidos após o período de retenção.",
    )
    ∷ ("mbTotal", "Caixas")
    ∷ ("mbEmails", "E-mails")
    ∷ ("mbStorage", "Armazenamento")
    ∷ ("mbWithEmails", "{n} com e-mails")
    ∷ ("mbUnreadSub", "{n} não lidos")
    ∷ ("mbCap", "Limite {n}")
    ∷ ("mbCapUnlimited", "Sem limite configurado")
    ∷ ("mbRetentionTitle", "Retenção de e-mails")
    ∷ ("mbRetentionDays", "{n} dias")
    ∷ ("mbRunRetention", "Executar limpeza agora")
    ∷ ("mbRetentionRan", "A limpeza removeu {n} e-mail(s).")
    ∷ ("mbCreateTitle", "Criar um endereço permanente")
    ∷ (
      "mbCreateDesc",
      "O token de acesso é exibido uma única vez — entregue-o ao titular, é a única forma de ler esta caixa.",
    )
    ∷ ("mbUsernamePlaceholder", "usuário")
    ∷ ("mbDomainPlaceholder", "domínio")
    ∷ ("mbCreateBtn", "Criar")
    ∷ ("mbCreating", "Criando...")
    ∷ ("mbNeedUsername", "Informe um nome de usuário.")
    ∷ ("mbCreated", "Criado {email}")
    ∷ ("mbCreatedNote", "Guarde o token agora: ele não será exibido novamente.")
    ∷ ("mbCopyToken", "Copiar token")
    ∷ ("mbCopied", "Copiado")
    ∷ ("mbCreatedDialogTitle", "Caixa criada")
    ∷ ("mbListTitle", "Caixas ({n})")
    ∷ ("mbSearchPlaceholder", "Pesquisar endereços...")
    ∷ ("mbSizeCol", "Tamanho")
    ∷ ("mbLastEmailCol", "Último e-mail")
    ∷ ("mbNever", "nunca")
    ∷ ("mbPurgeEmails", "Excluir e-mails (manter endereço)")
    ∷ ("mbPurgeConfirm", "Excluir todos os e-mails de {email}? O endereço é mantido.")
    ∷ ("mbPurged", "{n} e-mail(s) removido(s) de {email}.")
    ∷ ("mbDelete", "Excluir caixa")
    ∷ (
      "mbDeleteConfirm",
      "Excluir {email}? O endereço e todos os e-mails serão removidos definitivamente.",
    )
    ∷ ("mbDeleted", "{email} excluído.")
    ∷ ("mbNoMailboxes", "Ainda não há endereços permanentes")
    ∷ ("searchAddressesPlaceholder", "Pesquisar endereço de e-mail")
    ∷ ("createdExpiresSub", "Criado {a} · Expira {b}")
    ∷ ("createdPermanentSub", "Criado {a} · Caixa permanente")
    ∷ ("emailsTotal", "{n} e-mails no total")
    ∷ ("viewInEmails", "Ver no gerenciamento de e-mails")
    ∷ ("deleteAddressBtn", "Excluir este endereço e todos os seus e-mails")
    ∷ []
